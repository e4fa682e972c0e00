-- ===== src/Core.antt =====
-- The crate elfo-core.
pub mod Addr
pub mod RequestTable
pub mod Mailbox
pub mod Slots
pub mod Restarting
pub mod Tracing
pub mod Routing
pub mod Supervisor
pub mod Actor
pub mod Object
pub mod Interval
pub mod DumpingControl
mod Examples
mod MailboxExamples
mod RestartExamples
mod TracingExamples
mod SupervisorExamples
mod ObjectExamples
mod IntervalExamples
mod DumpingExamples
