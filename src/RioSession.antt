-- ===== src/RioSession.antt =====
-- ServerCore/Network/RioSession.cpp and RioSession.h: one client connection over registered I/O.
-- The calls of Winsock, the clock and the virtual methods of derived sessions are the fields of
-- `World`; the session keeps a log of what it calls, in order.
pub mod Defs
pub mod Connection
pub mod Receive
pub mod Send
mod Tests
