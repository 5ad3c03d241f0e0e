-- ===== src/Vfs.antt =====
-- morelib/vfs.c and morelib/include/morelib/vfs.h: paths, mount points and file descriptors.
pub mod Path
pub mod Mounts
pub mod Files
pub mod Operations
