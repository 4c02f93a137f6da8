-- ===== src/Tests.antt =====
-- Concrete peripherals, and runs of the firmware on them.
pub mod Ideal
pub mod Blobs
pub mod Commands
pub mod Transfers
pub mod Rounds
pub mod Metadata
pub mod Deletion
pub mod Pins
pub mod Wires
pub mod Hashes
pub mod Devices
