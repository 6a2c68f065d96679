-- ===== src/Tests.antt =====
-- The properties' hypotheses hold on small concrete runs of the program.
pub mod Documents
pub mod Jobs
pub mod Lifetimes
pub mod Files
pub mod Startup
pub mod Sessions
pub mod Texts
pub mod Calls
pub mod Chatting
pub mod Questions
pub mod Vectors
pub mod Buckets
