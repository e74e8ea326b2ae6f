-- ===== src/Http.antt =====
-- The HTTP client (C/http_client.c): the request that it composes and the space that it allocates
-- for it (`Request`), its loops that send the request and receive the response (`Transfer`).
pub mod Request
pub mod Transfer
mod Tests
