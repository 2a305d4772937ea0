-- ===== src/RoomManager.antt =====
-- server/src/room/RoomManager.{h,cpp}: the plans of the commands, the routing of events to workers, and
-- what the main thread calls.
pub mod Plans
pub mod Routing
pub mod Dispatch
pub mod Routed
