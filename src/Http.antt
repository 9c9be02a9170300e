-- ===== src/Http.antt =====
-- What the sources use of net/http: headers, and the response writer of a request.
pub mod Header
pub mod Response
