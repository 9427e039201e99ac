-- ===== src/Commands.antt =====
-- src/command.c and src/command_util.c: from a line of text to the calls of handlers.
pub mod Func
pub mod Table
pub mod NetworkTables
pub mod Tables
pub mod Run
pub mod Search
pub mod Dispatch
pub mod Dead
pub mod Relate
mod Tests
