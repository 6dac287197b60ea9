-- ===== src/Dispatch.antt =====
-- internal/dispatch: the in-process broker and the SQS coordinator, and what both do with the
-- answer of a triage agent.
pub mod Guard
pub mod Broker
pub mod Sqs
