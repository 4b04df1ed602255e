-- ===== src/Tests.antt =====
-- Runs on concrete inputs: tests of the definitions, and each theorem at an input that meets its
-- hypotheses.
mod Lightning
mod Limits
mod Payments
mod Payout
mod Proxy
mod Config
mod State
mod Deposits
mod Cooldown
