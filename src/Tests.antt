-- ===== src/Tests.antt =====
-- The properties at concrete inputs.
mod Wire
mod Access
mod Policy
mod Engine
mod Sending
mod Proxying
mod Planning
