-- ===== src/MySql.antt =====
-- src/Protocols/MySQL: the MySQL client library.
pub mod ProtocolBuffer
pub mod ProtocolStringReader
pub mod Command
pub mod Client
pub mod Binlog
pub mod Query
pub mod Types
pub mod BinlogProcessor
pub mod Handshake
