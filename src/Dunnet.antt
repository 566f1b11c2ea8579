-- ===== src/Dunnet.antt =====
-- worlds/dunnet.c: the world module that comes with the server.
pub mod Rooms
pub mod Console
pub mod Objects
pub mod Verbs
