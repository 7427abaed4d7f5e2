-- ===== src/Fs.antt =====
-- 4-fs: the FUSE file system fisopfs. One module for each group of operations of fisopfs.c, with
-- the helpers of fs_utils.c and the structures of def.h below them; the theorems are in Laws.
pub mod Strings
pub mod State
pub mod Search
pub mod Create
pub mod Content
pub mod Links
pub mod Mount
pub mod Tree
pub mod Calls
mod Tests
