-- ===== src/Memory.antt =====
-- The containers on one allocated block: the memory pool of src/memoryutils.c, cf_mem_pool_t, and
-- the array of src/arrayutils.c, cf_array_t of src/utils.h. `none` is an access outside of the
-- block.
pub mod Blocks
pub mod Pool
pub mod Array
mod Examples
