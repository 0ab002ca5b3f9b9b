-- ===== src/Tests.antt =====
-- Runs of the theorems at concrete inputs.
mod Ring
mod Pop
mod Header
mod Event
mod Fontus
mod Zipper
mod Trigger
mod Parser
mod Main
mod Devices
mod Rounds
mod Commands
mod Server
