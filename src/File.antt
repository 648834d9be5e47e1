-- ===== src/File.antt =====
-- The operations that FUSE calls, src/file.c. The null pointer is `none`; what a handler leaves in
-- `fi->fh` is part of its result.
pub mod Table
pub mod Errno
pub mod Attr
pub mod Open
pub mod Link
pub mod Serve
pub mod Slots
pub mod References
