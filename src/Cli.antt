-- ===== src/Cli.antt =====
-- adpulse/cli.py, the `replay` command of `main`. The files that it writes and the text that it
-- prints are left out, and the exit of `parser.error` counts as a runtime error.
pub mod State
pub mod Read
pub mod Release
pub mod Replay
pub mod Gated
pub mod Published
pub mod Gate
