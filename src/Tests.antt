-- ===== src/Tests.antt =====
-- Tests of the definitions, and the theorems at concrete inputs.
mod Strings
mod Commands
mod Parser
mod Print
mod Grammar
mod Lexer
mod Exec
mod Line
mod Reply
mod Release
mod Breakpoints
mod Logger
mod Lifetime
