-- ===== src/Au10.antt =====
-- The package au10: users, groups, the log, posts and messages, streams and the publisher.
pub mod Group
pub mod User
pub mod Users
pub mod Log
pub mod Post
pub mod Codec
pub mod Writer
pub mod Publisher
pub mod Posts
pub mod Reader
pub mod Stopping
pub mod Failing
pub mod StreamConfig
pub mod Dialling
pub mod LogReader
pub mod Feed
pub mod Consuming
