-- ===== src/Httpapi.antt =====
-- internal/httpapi: the HTTP interface of the service.
pub mod Recent
pub mod Messages
pub mod Responses
pub mod Server
pub mod Handlers
pub mod Debug
