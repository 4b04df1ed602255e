-- ===== src/Proxy.antt =====
-- crates/geata/src/proxy.rs: the way of a request from its `Host` header to the backend or to a response.
pub mod Data
pub mod Guards
pub mod Payment
pub mod Filter
pub mod Chain
pub mod Steps
pub mod Entitled
pub mod Access
pub mod Rejections
pub mod Forward
