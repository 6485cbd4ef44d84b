-- ===== src/Kernel.antt =====
-- Processes, the scheduler and message passing: kernel/.
pub mod MsgType
pub mod State
pub mod Proc
pub mod Pick
pub mod Schedule
pub mod Msg
pub mod SendRecv
pub mod Copies
pub mod WaitGraph
pub mod DeadLock
pub mod Rendezvous
pub mod RecvDeadLock
