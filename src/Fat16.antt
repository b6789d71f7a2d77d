-- ===== src/Fat16.antt =====
-- The FAT16 file system of kernel/filesystem/fat16.c. The functions take the disk, and its contents
-- where the C functions follow the disk's pointers; a failed assertion is a missing result. Sums
-- and products of `uint32_t` wrap at 2 ^ 32.
pub mod Layout
pub mod Clusters
pub mod Data
pub mod Names
pub mod Entries
pub mod Create
