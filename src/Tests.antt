-- ===== src/Tests.antt =====
-- The operations on concrete inputs, and for each theorem with conditions an input that meets them.
mod Parser
mod Server
mod Sessions
mod Tables
mod Names
mod Commands
mod Restart
mod Network
mod Writing
mod Running
mod Answers
