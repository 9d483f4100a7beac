-- ===== src/Wire.antt =====
-- native/proc17_qa_wire.h: the framed protocol between the launcher and the supervisor.
pub mod Integers
pub mod Kind
pub mod Reason
pub mod Termination
pub mod ErrorCode
pub mod ErrorStage
pub mod ErrorClass
pub mod TriState
pub mod Layout
pub mod Frame
pub mod Checks
pub mod RunV1
