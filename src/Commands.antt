-- ===== src/Commands.antt =====
-- src/commands: from the arguments of a request to a command (Parse), and from a command to its
-- effect on the store and its reply (Conn, Data, Execute).
pub mod Types
pub mod Args
pub mod SetOptions
pub mod Parse
pub mod Conn
pub mod Data
pub mod Execute
pub mod WrongType
