-- ===== src/Server.antt =====
-- sanzu/src/server_x11.rs: the X11 side of the server.
pub mod Areas
pub mod Poll
pub mod Input
pub mod Image
