-- ===== src/Trie/Insert.antt =====
-- `insert_trie` against the paths of the trie.
use multiplexing_server.Base.{
  ℕ, zero, suc, ◌≡◌, ◌≢◌, inl, inr, Bool-cases, ◌==◌, ==_iff, refl, ap, ap₂, ◌∙◌, Bool, true, false,
  Option, none, some, List, [], ◌∷◌, ◌++◌, Outcome, ok, All, arith,
}
use multiplexing_server.Codec.Dict.{IsBit}
use multiplexing_server.Trie.{TrieNode, null, node, create_trie_node, created, insert_trie, child}

-- The node at the end of a path.
abbrev pub sub : TrieNode → List ℕ → TrieNode
sub t [] = t
sub t (bit ∷ path) = sub (child bit t) path

-- The byte of a leaf.
abbrev pub leaf_of : TrieNode → Option ℕ
leaf_of null = none
leaf_of (node left right byte true) = some byte
leaf_of (node left right byte false) = none

abbrev pub leaf_at : TrieNode → List ℕ → Option ℕ
leaf_at t path = leaf_of (sub t path)

abbrev pub IsNode : TrieNode → Type 0
IsNode null = ⊥
IsNode (node left right byte is_leaf) = Unit

sub-null : (path : List ℕ) → sub null path ≡ null
sub-null [] = refl
sub-null (bit ∷ path) = sub-null path

-- No leaf is at the end of a path that leaves the trie.
leaf_at-null : (path : List ℕ) → leaf_at null path ≡ none
leaf_at-null path = rw (sub-null path) refl

leaf_at-created : (t : TrieNode) (path : List ℕ) → leaf_at (created t) path ≡ leaf_at t path
leaf_at-created null [] = refl
leaf_at-created null (zero ∷ path) = refl
leaf_at-created null (suc zero ∷ path) = refl
leaf_at-created null (suc (suc bit) ∷ path) = refl
leaf_at-created (node left right byte is_leaf) path = refl

pub leaf_at-create_trie_node : (path : List ℕ) → leaf_at create_trie_node path ≡ none
leaf_at-create_trie_node path = leaf_at-created null path ∙ leaf_at-null path

created-IsNode : (t : TrieNode) → IsNode (created t)
created-IsNode null = tt
created-IsNode (node left right byte is_leaf) = tt

sub-IsNode-null : (path : List ℕ) → IsNode (sub null path) → ⊥
sub-IsNode-null path h = rw (sub-null path) at h

sub-created-IsNode :
    (t : TrieNode) (path : List ℕ) → IsNode (sub t path) → IsNode (sub (created t) path)
sub-created-IsNode null path h = absurd (sub-IsNode-null path h)
sub-created-IsNode (node left right byte is_leaf) path h = h

-- A trie in which a code has been put: a leaf at its end, nodes at its parts, and nothing else changed.
pub record Inserted (t : TrieNode) (code : List ℕ) (byte : ℕ) (r : Outcome TrieNode) : Type 0 where
  pub out : TrieNode
  pub returns : r ≡ ok out
  pub is_node : IsNode out
  pub leaf : leaf_at out code ≡ some byte
  pub other : (path : List ℕ) → path ≢ code → leaf_at out path ≡ leaf_at t path
  pub part : (front back : List ℕ) → front ++ back ≡ code → IsNode (sub out front)
  pub kept : (path : List ℕ) → IsNode (sub t path) → IsNode (sub out path)

head_eq : (x y : ℕ) (xs ys : List ℕ) → x ∷ xs ≡ y ∷ ys → x ≡ y
head_eq x y xs ys e = ground arith

tail_eq : (x y : ℕ) (xs ys : List ℕ) → x ∷ xs ≡ y ∷ ys → xs ≡ ys
tail_eq x y xs ys e = ground arith

-- A node of which one child is replaced by a trie in which the rest of the code has been put.
module _ (bit : ℕ) (code : List ℕ) (byte : ℕ) (t t' : TrieNode) (r : Outcome TrieNode)
    (w : Inserted (created (child bit t)) code byte r) (is_node' : IsNode t')
    (same_leaf : leaf_of t' ≡ leaf_of t) (at : child bit t' ≡ w.out)
    (apart : (x : ℕ) → x ≢ bit → child x t' ≡ child x t) where
  other_below : (path : List ℕ) → path ≢ bit ∷ code → leaf_at t' path ≡ leaf_at t path
  other_below [] ne = same_leaf
  other_below (x ∷ path) ne = elim (Bool-cases (x == bit)) [
    | inl e ↦
        let same : x ≡ bit = (==_iff x bit).0 e in
        rw same (
          ap (λ c. leaf_at c path) at
          ∙ w.other path (λ q. ne (ap₂ ◌∷◌ same q))
          ∙ leaf_at-created (child bit t) path)
    | inr e ↦ ap (λ c. leaf_at c path) (apart x (ground arith))
  ]

  part_below : (front back : List ℕ) → front ++ back ≡ bit ∷ code → IsNode (sub t' front)
  part_below [] back e = is_node'
  part_below (x ∷ front) back e =
      rw (head_eq x bit (front ++ back) code e)
        (rw at (w.part front back (tail_eq x bit (front ++ back) code e)))

  kept_below : (path : List ℕ) → IsNode (sub t path) → IsNode (sub t' path)
  kept_below [] k = is_node'
  kept_below (x ∷ path) k = elim (Bool-cases (x == bit)) [
    | inl e ↦
        let same : x ≡ bit = (==_iff x bit).0 e in
        rw same (rw at (w.kept path (sub-created-IsNode (child bit t) path (rw same at k))))
    | inr e ↦ rw (apart x (ground arith)) k
  ]

  insert_below : (r' : Outcome TrieNode) → r' ≡ ok t' → Inserted t (bit ∷ code) byte r'
  insert_below r' e = record {
    out = t';
    returns = e;
    is_node = is_node';
    leaf = ap (λ c. leaf_at c code) at ∙ w.leaf;
    other = other_below;
    part = part_below;
    kept = kept_below;
  }

same_leaf :
    (l r l' r' : TrieNode) (b : ℕ) (f : Bool) → leaf_of (node l r b f) ≡ leaf_of (node l' r' b f)
same_leaf l r l' r' b true = refl
same_leaf l r l' r' b false = refl

apart_left :
    (l l' r : TrieNode) (b : ℕ) (f : Bool) (x : ℕ)
    → x ≢ 0
    → child x (node l' r b f) ≡ child x (node l r b f)
apart_left l l' r b f zero ne = absurd (ne refl)
apart_left l l' r b f (suc zero) ne = refl
apart_left l l' r b f (suc (suc x)) ne = refl

apart_right :
    (l r r' : TrieNode) (b : ℕ) (f : Bool) (x : ℕ)
    → x ≢ 1
    → child x (node l r' b f) ≡ child x (node l r b f)
apart_right l r r' b f zero ne = refl
apart_right l r r' b f (suc zero) ne = absurd (ne refl)
apart_right l r r' b f (suc (suc x)) ne = refl

-- `insert_trie` of a code of zeros and ones puts its byte at the end of the path that the code stands
-- for. It leaves every other path with the leaf it had, and every node of the trie in place.
pub insert_trie-Inserted :
    (code : List ℕ) (byte : ℕ) (t : TrieNode)
    → All IsBit code
    → IsNode t
    → Inserted t code byte (insert_trie code byte t)
unfolding insert_trie
insert_trie-Inserted code byte null h n = absurd n
insert_trie-Inserted [] byte (node left right b is_leaf) h n = record {
  out = node left right byte true;
  returns = refl;
  is_node = tt;
  leaf = refl;
  other = λ path ne. others path ne;
  part = λ front back e. front_nil front back e;
  kept = λ path k. nodes path k;
}
  where
    others :
        (path : List ℕ)
        → path ≢ []
        → leaf_at (node left right byte true) path ≡ leaf_at (node left right b is_leaf) path
    others [] ne = absurd (ne refl)
    others (zero ∷ path) ne = refl
    others (suc zero ∷ path) ne = refl
    others (suc (suc bit) ∷ path) ne = refl

    front_nil :
        (front back : List ℕ) → front ++ back ≡ [] → IsNode (sub (node left right byte true) front)
    front_nil [] back e = tt
    front_nil (x ∷ front) back e = absurd (cc)

    nodes :
        (path : List ℕ)
        → IsNode (sub (node left right b is_leaf) path)
        → IsNode (sub (node left right byte true) path)
    nodes [] k = tt
    nodes (zero ∷ path) k = k
    nodes (suc zero ∷ path) k = k
    nodes (suc (suc bit) ∷ path) k = k
insert_trie-Inserted (zero ∷ code) byte (node left right b is_leaf) h n =
    let w = insert_trie-Inserted code byte (created left) h.1 (created-IsNode left) in
    insert_below 0 code byte (node left right b is_leaf) (node w.out right b is_leaf) _ w tt
      (same_leaf w.out right left right b is_leaf) refl (apart_left left w.out right b is_leaf) _
      (rw w.returns refl)
insert_trie-Inserted (suc zero ∷ code) byte (node left right b is_leaf) h n =
    let w = insert_trie-Inserted code byte (created right) h.1 (created-IsNode right) in
    insert_below 1 code byte (node left right b is_leaf) (node left w.out b is_leaf) _ w tt
      (same_leaf left w.out left right b is_leaf) refl (apart_right left right w.out b is_leaf) _
      (rw w.returns refl)
insert_trie-Inserted (suc (suc bit) ∷ code) byte (node left right b is_leaf) h n =
    absurd (omega (arith, h.0))
