-- ===== src/Server.antt =====
-- apps/web/src/server and apps/web/src/app/api: what the web server keeps in its database, and what
-- its routes answer.
pub mod Env
pub mod Respond
pub mod Tables
pub mod Limits
pub mod Session
pub mod SignIn
pub mod Refused
pub mod Record
pub mod Send
pub mod Submit
pub mod Gates
pub mod Abandon
