-- ===== src/Examples.antt =====
-- The theorems at concrete inputs.
mod Restored
mod Planned
mod Headers
mod Looped
mod Mounts
mod Waits
mod Queued
mod Transfers
mod Words
mod Wanted
mod Moved
