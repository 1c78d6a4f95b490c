-- ===== src/Links.antt =====
-- Nodes on a heap that point to one another: the addresses that a chain of pointers goes through. What
-- the two linked lists of the program, of file requests and of sockets, have in common.
use multiplexing_server.Base.{
  ℕ, ◌≡◌, ◌≢◌, refl, sym, Option, none, some, List, [], ◌∷◌, ◌++◌, All, All-append, All-append_left,
  All-append_right, arith, ◌==◌, ==_self, ==_of_ne, if◌then◌else◌,
}

-- `none` is memory that is not allocated.
abbrev pub Heap : Type 0 → Type 0
Heap N = ℕ → Option N

module _ {N : Type 0} where
  abbrev pub update : Heap N → ℕ → Option N → Heap N
  update cell p r q = if p == q then r else cell q

  pub update_self : (cell : Heap N) (q : ℕ) (r : Option N) → update cell q r q ≡ r
  update_self cell q r = rw ==_self refl

  pub update_ne : (cell : Heap N) (p q : ℕ) (r : Option N) → p ≢ q → update cell p r q ≡ cell q
  update_ne cell p q r n = rw (==_of_ne p q n) refl

abbrev pub NotIn : ℕ → List ℕ → Type 0
NotIn p ps = All (λ q. p ≢ q) ps

abbrev pub Distinct : List ℕ → Type 0
Distinct [] = Unit
Distinct (p ∷ ps) = NotIn p ps × Distinct ps

abbrev pub last : List ℕ → Option ℕ
last [] = none
last (p ∷ []) = some p
last (p ∷ q ∷ ps) = last (q ∷ ps)

module _ {N : Type 0} (next : N → Option ℕ) where
  -- From `ptr` the `next` pointers lead through these addresses to `end`.
  abbrev pub ChainTo : Heap N → Option ℕ → List ℕ → Option ℕ → Type 0
  ChainTo cell ptr [] end = ptr ≡ end
  ChainTo cell ptr (p ∷ ps) end =
      (ptr ≡ some p) × (r : N) × (cell p ≡ some r) × ChainTo cell (next r) ps end

  -- And end at null.
  abbrev pub Chain : Heap N → Option ℕ → List ℕ → Type 0
  Chain cell ptr ps = ChainTo cell ptr ps none

  -- A write outside the chain leaves it.
  pub ChainTo-update :
      (cell : Heap N) (p : ℕ) (r : Option N) (ptr : Option ℕ) (ps : List ℕ) (end : Option ℕ)
      → NotIn p ps
      → ChainTo cell ptr ps end
      → ChainTo (update cell p r) ptr ps end
  ChainTo-update cell p r ptr [] end n c = c
  ChainTo-update cell p r ptr (q ∷ ps) end n c =
      let (e, s, g, rest) = c in
      (e, s, rw (==_of_ne p q n.0) g, ChainTo-update cell p r (next s) ps end n.1 rest)

pub NotIn-last : (q t : ℕ) (ps : List ℕ) → NotIn q ps → last ps ≡ some t → t ≢ q
NotIn-last q t [] n l e = cc
NotIn-last q t (p ∷ []) n l e = n.0 (ground arith)
NotIn-last q t (p ∷ x ∷ ps) n l e = NotIn-last q t (x ∷ ps) n.1 l e

pub last-snoc : (ps : List ℕ) (p : ℕ) → last (ps ++ p ∷ []) ≡ some p
last-snoc [] p = refl
last-snoc (q ∷ []) p = refl
last-snoc (q ∷ r ∷ ps) p = last-snoc (r ∷ ps) p

pub Distinct-snoc : (p : ℕ) (ps : List ℕ) → NotIn p ps → Distinct ps → Distinct (ps ++ p ∷ [])
Distinct-snoc p [] n d = (tt, tt)
Distinct-snoc p (q ∷ ps) n d =
    (All-append (λ x. q ≢ x) ps (p ∷ []) d.0 ((λ e. n.0 (sym e)), tt), Distinct-snoc p ps n.1 d.1)

-- What is left when the middle of a list of distinct addresses is taken out.
pub Distinct-middle :
    (xs : List ℕ) (p : ℕ) (ys : List ℕ)
    → Distinct (xs ++ p ∷ ys)
    → Distinct (xs ++ ys) × All (λ x. x ≢ p) xs × NotIn p ys
Distinct-middle [] p ys d = (d.1, tt, d.0)
Distinct-middle (x ∷ xs) p ys d =
    let (rest, apart, below) = Distinct-middle xs p ys d.1 in
    let right = All-append_right (λ y. x ≢ y) xs (p ∷ ys) d.0 in
    (
      (All-append (λ y. x ≢ y) xs ys (All-append_left (λ y. x ≢ y) xs (p ∷ ys) d.0) right.1, rest),
      (right.0, apart),
      below,
    )
