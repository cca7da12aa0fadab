-- ===== src/Agent.antt =====
-- agent/agent.h and agent/agent.c.
pub mod State
pub mod History
pub mod Think
pub mod Wire
pub mod Chat
