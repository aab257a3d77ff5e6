-- ===== src/AccessPoint.antt =====
-- accesspoint/lib: the server side of the access point.
pub mod Convertor
pub mod Status
pub mod Action
pub mod Client
pub mod Requests
pub mod Reading
pub mod Server
pub mod Subscription
pub mod Methods
