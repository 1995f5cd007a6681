-- ===== src/Game.antt =====
-- RIOIOCPServer/Contents and RIOIOCPServer/Session: the game that the server runs. Positions, the
-- players and their sessions, the messages to clients, the room with its zones, and the handlers of the
-- packets from clients.
pub mod Float
pub mod Position
pub mod Defs
pub mod Messages
pub mod Room
pub mod Zone
pub mod Packets
pub mod Steps
mod Tests
