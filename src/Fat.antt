-- ===== src/Fat.antt =====
-- FAT12, FAT16 and exFAT volumes on the disk, src/kernel/fs/fat.c.
pub mod Disk
pub mod Names
pub mod Volume
pub mod Table
pub mod Files
pub mod Root
pub mod Exfat
pub mod Mount
pub mod Example
mod Tests
