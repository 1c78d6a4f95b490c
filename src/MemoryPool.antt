-- ===== src/MemoryPool.antt =====
-- memory_pool.c: blocks of three sizes, taken in use and given back. Each function runs under the
-- pool's lock from its first access of a block to its last.
pub mod Taken
pub mod Blocks
mod Tests
use multiplexing_server.Base.{
  ℕ, zero, suc, ◌+◌, Bool, true, false, Option, none, some, List, [], ◌∷◌, leb, ◌==◌, if◌then◌else◌,
}

-- `struct pool_block`, less its link: a list of blocks is a list.
pub record Block : Type 0 where
  pub memory : ℕ
  pub in_use : ℕ

pub record MemoryPool : Type 0 where
  pub small_blocks : List Block
  pub medium_blocks : List Block
  pub large_blocks : List Block
  pub allocations : ℕ
  pub deallocations : ℕ

-- The loop from round `i`, with `count` rounds left. `memory i` is what the two allocations of that
-- round give, `none` if one of them fails: the list ends there.
pub create_block_list : (ℕ → Option ℕ) → ℕ → ℕ → List Block
create_block_list memory zero i = []
create_block_list memory (suc count) i =
    let rest = create_block_list memory count (i + 1) in
    elim (memory i) [ none ↦ [] | some m ↦ record { memory = m; in_use = 0 } ∷ rest ]

pub mp_create : (ℕ → Option ℕ) → (ℕ → Option ℕ) → (ℕ → Option ℕ) → MemoryPool
mp_create small medium large = record {
  small_blocks = create_block_list small 1000 0;
  medium_blocks = create_block_list medium 500 0;
  large_blocks = create_block_list large 100 0;
  allocations = 0;
  deallocations = 0;
}

-- The three lists of blocks.
pub data Size : Type 0 where
  small medium large : Size

-- The sizes that the blocks have; a larger request goes to `malloc` and `free`.
pub size_class : ℕ → Option Size
size_class size =
    if leb size 32
    then some small
    else if leb size 256
    then some medium
    else if leb size 1024
    then some large
    else none

abbrev pub blocks_of : Size → MemoryPool → List Block
blocks_of small pool = pool.small_blocks
blocks_of medium pool = pool.medium_blocks
blocks_of large pool = pool.large_blocks

abbrev pub with_blocks : Size → MemoryPool → List Block → MemoryPool
with_blocks small pool bs = record pool { small_blocks = bs }
with_blocks medium pool bs = record pool { medium_blocks = bs }
with_blocks large pool bs = record pool { large_blocks = bs }

-- `while (current)` of `mp_alloc`: the first block that is not in use.
pub take_block : List Block → Option (ℕ × List Block)
take_block [] = none
take_block (b ∷ bs) =
    let rest = take_block bs in
    if b.in_use == 0
    then some (b.memory, record b { in_use = 1 } ∷ bs)
    else elim rest [ none ↦ none | some r ↦ some (r.0, b ∷ r.1) ]

-- `while (current)` of `mp_free`: the block with this memory.
pub release_block : List Block → ℕ → Option (List Block)
release_block [] ptr = none
release_block (b ∷ bs) ptr =
    let rest = release_block bs ptr in
    if b.memory == ptr
    then some (record b { in_use = 0 } ∷ bs)
    else elim rest [ none ↦ none | some bs' ↦ some (b ∷ bs') ]

-- `fresh` is what `malloc(size)` returns. A null pool is `none`.
pub mp_alloc : Option MemoryPool → ℕ → ℕ → ℕ × Option MemoryPool
mp_alloc none size fresh = (fresh, none)
mp_alloc (some pool) size fresh = elim (size_class size) [
  | none ↦ (fresh, some pool)
  | some c ↦ elim (take_block (blocks_of c pool)) [
    | none ↦ (fresh, some pool)
    | some r ↦ (r.0, some (record (with_blocks c pool r.1) { allocations = pool.allocations + 1 }))
  ]
]

-- The result is the pointer that is given to `free`, if one is, and the pool. A null `ptr` is 0.
pub mp_free : Option MemoryPool → ℕ → ℕ → Option ℕ × Option MemoryPool
mp_free none ptr size = (some ptr, none)
mp_free (some pool) ptr size = if ptr == 0 then (some ptr, some pool) else elim (size_class size) [
  | none ↦ (some ptr, some pool)
  | some c ↦ elim (release_block (blocks_of c pool) ptr) [
    | none ↦ (some ptr, some pool)
    | some bs ↦
        (none, some (record (with_blocks c pool bs) { deallocations = pool.deallocations + 1 }))
  ]
]
