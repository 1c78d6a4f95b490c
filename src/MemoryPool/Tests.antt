-- ===== src/MemoryPool/Tests.antt =====
-- A pool of a few blocks, of which the first small one is in use, and the theorem at it.
use multiplexing_server.Base.{◌≡◌, refl, some, [], ◌∷◌, arith}
use multiplexing_server.MemoryPool.{
  MemoryPool, Size, small, medium, large, mp_alloc, take_block, size_class,
}
use multiplexing_server.MemoryPool.Blocks.{IsValid, Handed, mp_alloc-Handed}

abbrev pool : MemoryPool
pool = record {
  small_blocks = record { memory = 10; in_use = 1 } ∷ record { memory = 20; in_use = 0 } ∷ [];
  medium_blocks = record { memory = 30; in_use = 0 } ∷ [];
  large_blocks = [];
  allocations = 1;
  deallocations = 0;
}

pool-IsValid : (c : Size) → IsValid c pool
pool-IsValid small = record {
  distinct = ((omega arith, tt), (tt, tt));
  nonnull = (omega arith, (omega arith, tt));
}
pool-IsValid medium = record { distinct = (tt, tt); nonnull = (omega arith, tt) }
pool-IsValid large = record { distinct = tt; nonnull = tt }

mp_alloc-Handed_example : Handed pool 32 99 (mp_alloc (some pool) 32 99)
mp_alloc-Handed_example = mp_alloc-Handed pool 32 99 pool-IsValid

-- The second block is handed out.
second_block : (mp_alloc (some pool) 32 99).0 ≡ 20
unfolding mp_alloc take_block size_class
second_block = refl
