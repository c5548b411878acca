-- ===== src/Machine.antt =====
-- internal/snapshot/stack_machine.go: the interpreter of a snapshot program.
pub mod State
pub mod Control
pub mod Enqueue
pub mod Data
pub mod Context
pub mod Run
pub mod Calls
pub mod Loops
pub mod Sound
