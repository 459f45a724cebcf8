-- ===== src/Wfs.antt =====
-- p7: a file system on a disk image (`mkfs.c` and `wfs.c`).
pub mod Bits
pub mod Disk
pub mod Bitmap
pub mod Format
pub mod Inode
pub mod Outside
pub mod Lookup
pub mod Create
pub mod Remove
pub mod Read
pub mod Write
mod Tests
mod FileTests
