-- ===== src/Tests.antt =====
-- Runs at concrete inputs, where the theorems' hypotheses hold.
mod Toy
mod Accounts
mod Builders
mod Events
mod Web
mod Multiplier
mod Server
mod Replay
mod Realtime
mod Cron
mod LpPoints
mod Confirm
mod Session
mod History
