-- ===== src/Tests.antt =====
-- The theorems at concrete inputs.
mod Data
mod Pictures
mod Pixels
mod Decoders
mod Messages
mod Sessions
mod Concurrent
mod Servers
mod Drawings
mod Videos
mod Updates
mod Proxies
mod Programs
mod Cursors
