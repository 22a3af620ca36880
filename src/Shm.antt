-- ===== src/Shm.antt =====
-- xrbase/shm: what lies in shared memory.
pub mod MidList
