-- ===== src/Pools.antt =====
-- src/laige-core/include/laige/pools.h: the two kinds of memory pools.
pub mod Words
pub mod Arena
pub mod Pool
pub use Words.*
