-- ===== src/Gateway.antt =====
-- The gateway: who may connect, and the dispatch of messages (src/gateway/).
pub mod Authenticator
pub mod JsonRpc
pub mod Tokens
