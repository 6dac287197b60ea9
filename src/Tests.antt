-- ===== src/Tests.antt =====
-- Tests of the definitions on concrete inputs, and the theorems at inputs that meet their
-- hypotheses.
pub mod Samples
mod Resources
mod Text
mod Tracing
mod Dispatching
mod Triage
mod Queues
mod Brokers
mod Devices
mod Sqs
pub mod SqsSystem
mod SqsRun
mod Processes
mod Scheduling
