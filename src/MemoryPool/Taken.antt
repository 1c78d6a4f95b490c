-- ===== src/MemoryPool/Taken.antt =====
-- The block that `mp_alloc` takes from a list, and giving it back.
use multiplexing_server.Base.{
  ℕ, ◌≡◌, ◌≢◌, inl, inr, refl, ap, sym, ◌∙◌, true, false, Bool-cases, Option-cases, Option, none,
  some, List, [], ◌∷◌, ◌++◌, map, ◌==◌, ==_self, ==_of_ne, All, All-mono, All-append_right, subst,
  arith,
}
use multiplexing_server.Links.{NotIn, Distinct, Distinct-middle}
use multiplexing_server.MemoryPool.{Block, take_block, release_block}

abbrev pub memories : List Block → List ℕ
memories bs = map (λ (b : Block). b.memory) bs

-- The blocks, with the first that is not in use set apart.
record Splits (bs bs' : List Block) (p : ℕ) : Type 0 where
  front : List Block
  block : Block
  back : List Block
  before : bs ≡ front ++ block ∷ back
  after : bs' ≡ front ++ record block { in_use = 1 } ∷ back
  is_memory : p ≡ block.memory
  free : block.in_use ≡ 0

some_parts : (x y : ℕ × List Block) → some x ≡ some y → (x.0 ≡ y.0) × (x.1 ≡ y.1)
some_parts x y e = let same : x ≡ y = cc in (ap (λ t. t.0) same, ap (λ t. t.1) same)

take_block-free :
    (b : Block) (bs : List Block)
    → (b.in_use == 0) ≡ true
    → take_block (b ∷ bs) ≡ some (b.memory, record b { in_use = 1 } ∷ bs)
unfolding take_block
take_block-free b bs g = rw g refl

take_block-used :
    (b : Block) (bs : List Block)
    → (b.in_use == 0) ≡ false
    → take_block (b ∷ bs) ≡ elim (take_block bs) as (λ _. Option (ℕ × List Block)) [
      | none ↦ none
      | some r ↦ some (r.0, b ∷ r.1)
    ]
unfolding take_block
take_block-used b bs g = rw g refl

take_block-Splits : (bs bs' : List Block) (p : ℕ) → take_block bs ≡ some (p, bs') → Splits bs bs' p
take_block-Splits [] bs' p e = unfold take_block in cc
take_block-Splits (b ∷ bs) bs' p e = elim (Bool-cases (b.in_use == 0)) [
  | inl g ↦
      let parts =
        some_parts (b.memory, record b { in_use = 1 } ∷ bs) (p, bs')
          (sym (take_block-free b bs g) ∙ e) in
      record {
        front = [];
        block = b;
        back = bs;
        before = refl;
        after = sym parts.1;
        is_memory = sym parts.0;
        free = ground arith;
      }
  | inr g ↦ elim (Option-cases (take_block bs)) [
    | inl n ↦
        let nothing : Option (ℕ × List Block) = none in
        let z : nothing ≡ some (p, bs') = sym (take_block-used b bs g ∙ rw n refl) ∙ e in
        absurd (cc)
    | inr (r, h) ↦
        let parts =
          some_parts (r.0, b ∷ r.1) (p, bs') (sym (take_block-used b bs g ∙ rw h refl) ∙ e) in
        let s = take_block-Splits bs r.1 r.0 h in
        record {
          front = b ∷ s.front;
          block = s.block;
          back = s.back;
          before = ap (◌∷◌ b) s.before;
          after = sym parts.1 ∙ ap (◌∷◌ b) s.after;
          is_memory = sym parts.0 ∙ s.is_memory;
          free = s.free;
        }
  ]
]

release_block-append :
    (front : List Block) (b : Block) (back : List Block)
    → NotIn b.memory (memories front)
    → release_block (front ++ b ∷ back) b.memory ≡ some (front ++ record b { in_use = 0 } ∷ back)
unfolding release_block
release_block-append [] b back n = rw (==_self b.memory) refl
release_block-append (c ∷ front) b back n =
    rw (==_of_ne c.memory b.memory (λ e. n.0 (sym e)))
      (rw (release_block-append front b back n.1) refl)

memories-append : (xs ys : List Block) → memories (xs ++ ys) ≡ memories xs ++ memories ys
memories-append [] ys = refl
memories-append (x ∷ xs) ys = ap (◌∷◌ x.memory) (memories-append xs ys)

-- Giving back the block that was taken leaves the blocks as they were, and it was not in use before.
pub record Returns (bs bs' : List Block) (p : ℕ) : Type 0 where
  pub released : release_block bs' p ≡ some bs
  pub nonnull : NotIn 0 (memories bs) → p ≢ 0
  pub unused : All (λ (b : Block). (b.in_use ≢ 0) → b.memory ≢ p) bs
  pub marked : All (λ (b : Block). (b.memory ≡ p) → b.in_use ≢ 0) bs'

unused_lem :
    (front : List Block) (b : Block) (back : List Block)
    → b.in_use ≡ 0
    → NotIn b.memory (memories front)
    → NotIn b.memory (memories back)
    → All (λ (c : Block). (c.in_use ≢ 0) → c.memory ≢ b.memory) (front ++ b ∷ back)
unused_lem [] b [] e n m = (λ u z. u e, tt)
unused_lem [] b (c ∷ back) e n m =
    (λ u z. u e, (λ u z. m.0 (sym z), (unused_lem [] b back e n m.1).1))
unused_lem (c ∷ front) b back e n m = (λ u z. n.0 (sym z), unused_lem front b back e n.1 m)

behind_marked :
    (m : ℕ) (back : List Block)
    → NotIn m (memories back)
    → All (λ (c : Block). (c.memory ≡ m) → c.in_use ≢ 0) back
behind_marked m [] h = tt
behind_marked m (c ∷ back) h = (λ z. absurd (h.0 (sym z)), behind_marked m back h.1)

marked_lem :
    (front : List Block) (b : Block) (back : List Block)
    → NotIn b.memory (memories front)
    → NotIn b.memory (memories back)
    → All
        (λ (c : Block). (c.memory ≡ b.memory) → c.in_use ≢ 0)
        (front ++ record b { in_use = 1 } ∷ back)
marked_lem [] b back n m = (λ z e. omega (arith, e), behind_marked b.memory back m)
marked_lem (c ∷ front) b back n m = (λ z. absurd (n.0 (sym z)), marked_lem front b back n.1 m)

pub take_block-full :
    (bs : List Block) → take_block bs ≡ none → All (λ (b : Block). b.in_use ≢ 0) bs
take_block-full [] e = tt
take_block-full (b ∷ bs) e = elim (Bool-cases (b.in_use == 0)) [
  | inl g ↦ let z = sym (take_block-free b bs g) ∙ e in absurd (cc)
  | inr g ↦ elim (Option-cases (take_block bs)) [
    | inl n ↦ ((λ z. ground arith), take_block-full bs n)
    | inr (r, h) ↦
        let found : Option (ℕ × List Block) = some (r.0, b ∷ r.1) in
        let z : found ≡ none = sym (take_block-used b bs g ∙ rw h refl) ∙ e in absurd (cc)
  ]
]

pub take_block-Returns :
    (bs bs' : List Block) (p : ℕ)
    → Distinct (memories bs)
    → take_block bs ≡ some (p, bs')
    → Returns bs bs' p
take_block-Returns bs bs' p d e =
    let s = take_block-Splits bs bs' p e in
    let split : memories bs ≡ memories s.front ++ s.block.memory ∷ memories s.back =
      ap memories s.before ∙ memories-append s.front (s.block ∷ s.back) in
    let (rest, apart, below) =
      Distinct-middle (memories s.front) s.block.memory (memories s.back)
        (subst Distinct split d) in
    let n =
      All-mono (λ x. x ≢ s.block.memory) (λ x. s.block.memory ≢ x) (memories s.front)
        (λ x ne z. ne (sym z)) apart in
    let restored : record s.block { in_use = 0 } ≡ s.block =
      ap (λ u. record s.block { in_use = u }) (sym s.free) in
    record {
      released =
          rw (s.after, s.is_memory)
            (release_block-append s.front (record s.block { in_use = 1 }) s.back n
              ∙ ap (λ b. some (s.front ++ b ∷ s.back)) restored
              ∙ ap some (sym s.before));
      nonnull = λ h z.
          (All-append_right (λ x. 0 ≢ x) (memories s.front) (s.block.memory ∷ memories s.back)
              (subst (NotIn 0) split h)).0
            (sym z ∙ s.is_memory);
      unused = rw s.is_memory (
          subst (All (λ (c : Block). (c.in_use ≢ 0) → c.memory ≢ s.block.memory)) (sym s.before)
            (unused_lem s.front s.block s.back s.free n below));
      marked = rw (s.after, s.is_memory) (marked_lem s.front s.block s.back n below);
    }
