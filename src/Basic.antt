-- ===== src/Basic.antt =====
-- src/basic: the helpers that the other parts of the library stand on.
pub mod Exception
pub mod Bytes
pub mod FileName
pub mod StackFrame
pub mod Command
pub mod Backtrace
pub mod Terminate
pub mod Signal
pub mod Logger
pub mod Thread
