-- ===== src/Server.antt =====
-- internal/server: how a request is answered. Writer is the answer that is being written, Stream the
-- proxy of streams with its retries, Access the lookup of the client of a token, Handlers the rest.
pub mod Writer
pub mod Stream
pub mod Proxy
pub mod Access
pub mod Handlers
pub mod Tests
