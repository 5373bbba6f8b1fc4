-- ===== src/Tests.antt =====
-- A concrete evbuffer and socket, and runs of the program on them.
pub mod Machine
pub mod OnBuffer
pub mod OnMySql
pub mod OnHttp
pub mod OnMemcache
pub mod OnMySqlClient
pub mod OnBase
pub mod OnCoroutines
pub mod OnUrlParams
pub mod OnBinlog
pub mod OnTasks
pub mod OnQuery
