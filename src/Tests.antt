-- ===== src/Tests.antt =====
-- Concrete runs of the development, one for each theorem that has conditions.
pub mod Buffers
pub mod Slices
pub mod Emails
pub mod Accepted
pub mod Digests
pub mod Connections
pub mod Messages
pub mod Paths
pub mod Settings
pub mod Loops
pub mod Programs
pub mod Requests
pub mod Created
pub mod Lives
pub mod Runs
pub mod Texts
