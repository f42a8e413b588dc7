-- ===== src/Tests.antt =====
-- Concrete runs, and each result at a concrete input.
mod Samples
mod Wire
mod Types
mod Load
mod Versions
mod Threads
mod Options
mod Generator
mod Registry
mod Component
mod Join
mod Conn
mod Client
