-- ===== src/Kernel.antt =====
-- The kernel of CalmOS: processes, the scheduler and the message queues.
pub mod State
pub mod Runnable
pub mod Invariant
pub mod Ready
pub mod Tick
pub mod Waiting
pub mod Elects
pub mod Stop
pub mod Scheduler
pub mod Waitpid
pub mod Messages
pub mod Boot
pub mod Machine
pub mod Status
pub mod Syscall
