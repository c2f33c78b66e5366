-- ===== src/Gateway/HttpServer.antt =====
-- class HttpServer (backend/src/gateway/HttpServer.cpp): the handlers of its routes. Crow, which
-- parses requests and finds the route, is not part of the repository: a handler takes the parts of
-- the request that it reads. Its result is the response, or the exception that leaves it; `none` is
-- a handler that never returns. The logging is left out.
pub mod Requests
pub mod Responses
pub mod Login
pub mod Orders
pub mod Operations
pub mod Access
pub mod Tokens
pub mod Submission
pub mod Soundness
pub mod Orderbook
pub mod Samples
pub mod Posted
mod Examples
