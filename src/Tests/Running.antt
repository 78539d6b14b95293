-- ===== src/Tests/Running.antt =====
-- A file that is run, from the client to the shell.
use distributed_concurrent_f.Prelude.{
  true, [], ◌∷◌, ◌++◌, ◌≡◌, refl, arith, Bytes, codes, pos, none, some, str_eq, if◌then◌else◌, All,
  int_eq,
}
use distributed_concurrent_f.CString.{lines_from}
use distributed_concurrent_f.StorageServer.Scan.{starts_with}
use distributed_concurrent_f.UndoHandler.{FileSystem}
use distributed_concurrent_f.FileOps.{file_path}
use distributed_concurrent_f.FileOps.Connection.{Answer, ss_handle_client_connection}
use distributed_concurrent_f.FileOps.Connection.Laws.{IsWord}
use distributed_concurrent_f.NameServer.{find_ss, check_access}
use distributed_concurrent_f.NameServer.Commands.{Outside, send_all, nm_command}
use distributed_concurrent_f.NameServer.Exec.{Shell, finished_text, output_pieces}
use distributed_concurrent_f.NameServer.Exec.Shown.{IsPlain, Allowed, Runs, shown-exec}
use distributed_concurrent_f.Client.{World}
use distributed_concurrent_f.Client.Commands.{client_parse_and_execute, is_finished, is_error}
use distributed_concurrent_f.Client.Session.{IsOutput}
use distributed_concurrent_f.Client.Output.{answer_text, shown}
use distributed_concurrent_f.Tests.Tables.{report}
use distributed_concurrent_f.Tests.Names.{nm, times, report_there}
use distributed_concurrent_f.Tests.Server.{server}

abbrev script : Bytes
script = codes "ls"

abbrev printed_text : Bytes
printed_text = codes "a.txt\nreport"

abbrev files : FileSystem
files = record {
  files = λ q. if str_eq q (codes "data/report") then some script else none;
  can_write = λ q. true;
  can_rename = λ p q. true;
  can_unlink = λ q. true;
}

abbrev other : Answer → Bytes
other a = codes "404 ERROR"

abbrev quick_shell : Shell
quick_shell = record {
  reachable = λ ip port. true;
  answer = λ ip port req. answer_text other (ss_handle_client_connection server files req).answer;
  can_create = true;
  run = λ text. some printed_text;
}

abbrev outside : Outside
outside = record { shell = quick_shell; times = times; now = pos 9 }

allowed : Allowed nm (codes "ann") (codes "report") (codes "10.0.0.1") (pos 9000)
unfolding check_access find_ss str_eq int_eq
allowed = record {
  meta = report;
  server = record { socket = 4; ip = codes "10.0.0.1"; client_port = pos 9000 };
  there = report_there;
  right = refl;
  at_ip = refl;
  at_port = refl;
  online = refl;
}

script_there : files.files (file_path server (codes "report")) ≡ some script
unfolding file_path str_eq
script_there = refl

runs : Runs quick_shell (codes "10.0.0.1") (pos 9000) (codes "report") script printed_text
runs = record {
  ss = server;
  fs = files;
  other = other;
  reachable = refl;
  served = λ req. refl;
  there = script_there;
  not_empty = omega arith;
  fits = omega arith;
  request_fits = omega arith;
  can_create = refl;
  output = refl;
}

pieces : output_pieces printed_text ≡ codes "a.txt\n" ∷ codes "report" ∷ []
unfolding output_pieces lines_from
pieces = refl

quiet : All IsOutput (output_pieces printed_text)
unfolding is_finished is_error starts_with output_pieces lines_from
quiet = (refl, (refl, tt))

abbrev world : World
world = record {
  nm_messages = (output_pieces printed_text ++ finished_text ∷ []) ++ codes "next" ∷ [];
  typed = [];
  reachable = λ ip port. true;
  answers = λ ip port sent. [];
}

report-IsWord : IsWord (codes "report")
report-IsWord =
    (λ (e : codes "report" ≡ []). cc, (refl, (refl, (refl, (refl, (refl, (refl, tt)))))))

report-IsPlain : IsPlain (codes "report")
report-IsPlain = (refl, (refl, (refl, (refl, (refl, (refl, tt))))))

shown-exec_example :
    (nm_command nm 7 (codes "ann") (codes "EXEC " ++ codes "report") outside
      ≡ send_all nm 7 (output_pieces printed_text ++ finished_text ∷ []))
    × (shown (client_parse_and_execute world (codes "EXEC " ++ codes "report")).events
        ≡ printed_text)
    × ((client_parse_and_execute world (codes "EXEC " ++ codes "report")).world.nm_messages
        ≡ codes "next" ∷ [])
shown-exec_example =
    shown-exec nm 7 (codes "ann") (codes "report") (codes "10.0.0.1") (pos 9000) outside script
      printed_text world (codes "next" ∷ []) report-IsWord report-IsPlain allowed runs quiet refl
