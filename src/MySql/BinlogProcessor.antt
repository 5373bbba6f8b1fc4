-- ===== src/MySql/BinlogProcessor.antt =====
-- src/Protocols/MySQL/BinlogProcessor.cc: the events of a binlog, parsed.
pub mod Cells
pub mod Rows
pub mod Events
pub mod Parsers
pub mod Encoding
pub mod CellLaws
pub mod TableMap
pub mod RowLaws
pub mod RowsEvents
pub mod Processing
pub mod Steady
pub mod Termination
pub mod Ending
