-- ===== src/Web.antt =====
-- src/web_server.c: the HTTP server. Its children follow the parts of that file: the decoding of
-- form bodies, the request handlers, credentials, firmware upload, WebSocket pushes, the URI table.
pub mod Form
pub mod Handlers
pub mod Save
pub mod Ota
pub mod Push
pub mod Server
pub mod Requests
