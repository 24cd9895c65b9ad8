-- ===== src/Command.antt =====
-- include/CommandParser.h, src/CommandParser.cpp, include/CommandExecutor.h, src/CommandExecutor.cpp:
-- from a request line to the reply.
pub mod Token
pub mod Parse
pub mod Escape
pub mod Execute
pub mod RoundTrip
pub mod Replies
pub mod Session
pub mod Fuel
