-- ===== src/Web/Model.antt =====
-- go-web/model: users, verification codes and text messages, over the services.
pub mod Redis
pub mod Pools
pub mod Message
pub mod User
pub mod Tables
