-- ===== src/Api.antt =====
-- internal/api: the websocket fan-out and the HTTP queries.
pub mod Stream
pub mod Http
