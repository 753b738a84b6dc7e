-- ===== src/Tests.antt =====
-- The theorems at concrete inputs.
mod Permissions
mod OpenFiles
mod Requests
mod Files
mod Reached
mod Placing
mod Caching
mod Calls
mod Flushing
mod Servers
mod Networks
mod Revoking
