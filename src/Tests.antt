-- ===== src/Tests.antt =====
-- The theorems at concrete inputs.
mod Data
mod Engine
mod Votes
mod Proposals
mod Bus
mod Limiter
mod Accounts
mod Model
mod Text
mod Webhooks
mod Admin
mod Events
mod Web
mod Loop
mod System
mod Application
mod Commands
