-- ===== src/MemoryPool/Blocks.antt =====
-- Blocks that are taken and given back: `mp_alloc` and `mp_free` together.
use multiplexing_server.Base.{
  ℕ, ◌+◌, ◌≡◌, ◌≢◌, ◌⊎◌, inl, inr, refl, sym, ◌∙◌, Option-cases, Option, none, some, List, ==_of_ne,
  All, subst,
}
use multiplexing_server.Links.{NotIn, Distinct}
use multiplexing_server.MemoryPool.Taken.{memories, take_block-full, take_block-Returns}
use multiplexing_server.MemoryPool.{
  Block, MemoryPool, Size, small, medium, large, size_class, blocks_of, with_blocks, take_block,
  release_block, mp_alloc, mp_free,
}

-- The addresses of a pool's blocks of one size differ from one another and from null.
pub record IsValid (c : Size) (pool : MemoryPool) : Type 0 where
  pub distinct : Distinct (memories (blocks_of c pool))
  pub nonnull : NotIn 0 (memories (blocks_of c pool))

-- In this pool, a block of this size with this memory is in use.
pub InUse : Size → ℕ → Option MemoryPool → Type 0
InUse c p none = ⊥
InUse c p (some pool) = All (λ (b : Block). (b.memory ≡ p) → b.in_use ≢ 0) (blocks_of c pool)

taken-InUse :
    (pool : MemoryPool) (c : Size) (p : ℕ) (bs : List Block)
    → All (λ (b : Block). (b.memory ≡ p) → b.in_use ≢ 0) bs
    → InUse c p (some (record (with_blocks c pool bs) { allocations = pool.allocations + 1 }))
unfolding InUse
taken-InUse pool small p bs h = h
taken-InUse pool medium p bs h = h
taken-InUse pool large p bs h = h

-- A pointer that `mp_alloc` hands out for a size, and the pool behind it.
pub Handed : MemoryPool → ℕ → ℕ → ℕ × Option MemoryPool → Type 0
Handed pool size fresh (p, pool') =
    ((p ≡ fresh)
      × (pool' ≡ some pool)
      × ((c : Size)
          → size_class size ≡ some c
          → All (λ (b : Block). b.in_use ≢ 0) (blocks_of c pool)))
    ⊎ ((c : Size) × (size_class size ≡ some c)
        × (p ≢ 0)
        × All (λ (b : Block). (b.in_use ≢ 0) → b.memory ≢ p) (blocks_of c pool)
        × InUse c p pool'
        × (mp_free pool' p size ≡ (
          none,
          some (record pool {
            allocations = pool.allocations + 1;
            deallocations = pool.deallocations + 1;
          }),
        )))

mp_free-taken :
    (pool : MemoryPool) (size : ℕ) (c : Size) (p : ℕ) (bs : List Block)
    → size_class size ≡ some c
    → p ≢ 0
    → release_block bs p ≡ some (blocks_of c pool)
    → mp_free (some (record (with_blocks c pool bs) { allocations = pool.allocations + 1 })) p size
      ≡ (
        none,
        some (record pool {
          allocations = pool.allocations + 1;
          deallocations = pool.deallocations + 1;
        }),
      )
unfolding mp_free
mp_free-taken pool size small p bs g ne e = rw (==_of_ne p 0 ne, g) (rw e refl)
mp_free-taken pool size medium p bs g ne e = rw (==_of_ne p 0 ne, g) (rw e refl)
mp_free-taken pool size large p bs g ne e = rw (==_of_ne p 0 ne, g) (rw e refl)

module _ (pool : MemoryPool) (size fresh : ℕ) where
  mp_alloc_large : size_class size ≡ none → mp_alloc (some pool) size fresh ≡ (fresh, some pool)
  unfolding mp_alloc
  mp_alloc_large n = rw (n, mp_alloc) refl

  mp_alloc_full :
      (c : Size)
      → size_class size ≡ some c
      → take_block (blocks_of c pool) ≡ none
      → mp_alloc (some pool) size fresh ≡ (fresh, some pool)
  unfolding mp_alloc
  mp_alloc_full c g n = rw (g, mp_alloc) (rw n refl)

  mp_alloc_taken :
      (c : Size) (p : ℕ) (bs : List Block)
      → size_class size ≡ some c
      → take_block (blocks_of c pool) ≡ some (p, bs)
      → mp_alloc (some pool) size fresh
        ≡ (p, some (record (with_blocks c pool bs) { allocations = pool.allocations + 1 }))
  unfolding mp_alloc
  mp_alloc_taken c p bs g h = rw (g, mp_alloc) (rw h refl)

same_class : (c c' : Size) → some c ≡ some c' → c ≡ c'
same_class c c' e = cc

-- In a pool whose blocks of one size have addresses that differ from one another and from null,
-- what `mp_alloc` hands out is the pointer of `malloc`, with the pool as it was, which happens only if
-- the size is larger than every block's or all blocks of its class are in use, or the memory of a block
-- of that class. That one is not null, was not in use and is in use afterwards, and when it is given
-- back with the same size the blocks are as they were before, with both counters one higher.
pub mp_alloc-Handed :
    (pool : MemoryPool) (size fresh : ℕ)
    → ((c : Size) → IsValid c pool)
    → Handed pool size fresh (mp_alloc (some pool) size fresh)
mp_alloc-Handed pool size fresh v = elim (Option-cases (size_class size)) [
  | inl n ↦
      subst (Handed pool size fresh) (sym (mp_alloc_large pool size fresh n))
        (unfold Handed in inl (refl, refl, λ c g. let z = sym n ∙ g in absurd (cc)))
  | inr (c, g) ↦ elim (Option-cases (take_block (blocks_of c pool))) [
    | inl n ↦ subst (Handed pool size fresh) (sym (mp_alloc_full pool size fresh c g n)) (
        unfold Handed in
        inl (
          refl,
          refl,
          λ c' g'.
              subst (λ c'. All (λ (b : Block). b.in_use ≢ 0) (blocks_of c' pool))
                (same_class c c' (sym g ∙ g')) (take_block-full (blocks_of c pool) n),
        ))
    | inr (r, h) ↦
        let w = take_block-Returns (blocks_of c pool) r.1 r.0 (v c).distinct h in
        let ne = w.nonnull (v c).nonnull in
        subst (Handed pool size fresh) (sym (mp_alloc_taken pool size fresh c r.0 r.1 g h)) (
          unfold Handed in
          inr (
            c,
            g,
            ne,
            w.unused,
            taken-InUse pool c r.0 r.1 w.marked,
            mp_free-taken pool size c r.0 r.1 g ne w.released,
          ))
  ]
]
