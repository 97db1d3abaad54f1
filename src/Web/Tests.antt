-- ===== src/Web/Tests.antt =====
-- go-web at concrete inputs.
mod Fixtures
mod Models
mod Pools
mod Tables
mod Duplicates
mod Handlers
mod Requests
mod Interleavings
mod Starts
