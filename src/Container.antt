-- ===== src/Container.antt =====
-- xrbase/container: containers of a fixed capacity.
pub mod FixIdAlloc
pub mod FixQueue
