-- ===== src/Storage.antt =====
-- Block storage of the kernel: results and their mapping to file-system results, the checked access to
-- a block device, the ATA policy, and the writable overlay of the Live image.
pub mod BlockResult
pub mod FsResult
pub mod Device
pub mod AtaPolicy
pub mod LivePack
pub mod LiveOverlay
pub mod LiveDevice
pub mod LivePacker
pub mod Failures
pub mod Deadlines
pub mod Requests
mod Tests
