-- ===== src/KeyValFs.antt =====
-- The file-system database of evobench-tools/src/key_val_fs: directories with faults (Disk), the
-- map from keys to files (KeyVal), the keys (TimeKey) and the queue (Queue).
pub mod AsKey
pub mod Disk
pub mod KeyVal
pub mod TimeKey
pub mod Queue
