-- ===== src/Http.antt =====
-- src/Protocols/HTTP: the HTTP library.
pub mod Websocket
pub mod UrlParams
