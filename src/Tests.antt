-- ===== src/Tests.antt =====
-- Runs of the model on concrete inputs.
mod Fixtures
mod Kernel
mod Wire
mod Connections
mod Rooms
mod Journeys
mod Client
mod Server
mod Database
mod Backlog
mod Launch
