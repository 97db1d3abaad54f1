-- ===== src/Web.antt =====
-- go-web: a service that registers users, with verification codes by text message.
pub mod Errmsg
pub mod World
pub mod Model
pub mod Api
pub mod Setting
pub mod Router
pub mod Concurrent
pub mod Program
mod Tests
