-- ===== src/Examples.antt =====
-- Tests, and the theorems at concrete inputs.
mod Setting
mod Ownership
mod Datagrams
mod Channels
mod Wide
mod Ring
mod Streams
mod Service
mod Lifecycle
mod Delivery
mod Threads
mod Refused
mod Locks
mod Interference
