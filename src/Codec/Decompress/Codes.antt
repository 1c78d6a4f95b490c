-- ===== src/Codec/Decompress/Codes.antt =====
-- What the search through the dictionary finds, and what a whole code does to the state of the scan.
use multiplexing_server.Base.{
  ℕ, zero, suc, ◌≡◌, ◌≢◌, refl, ap, ◌∙◌, inl, inr, List, [], ◌∷◌, ◌++◌, append-nil, arith, some,
  none, Option-cases, true, ◌&&◌, ◌==◌, Bool-cases, length, length-append, nil_of_length, get_elem?,
}
use multiplexing_server.Codec.Dict.{Dict, MNode, IsDict, IsPrefixFree}
use multiplexing_server.Codec.Decompress.{same_bytes, find_code}

same_bytes-eq :
    (n : ℕ) (a b : List ℕ) → length a ≡ n → length b ≡ n → same_bytes n a b ≡ true → a ≡ b
unfolding same_bytes
same_bytes-eq zero [] [] ha hb h = refl
same_bytes-eq zero [] (y ∷ b) ha hb h = absurd (omega arith)
same_bytes-eq zero (x ∷ a) b ha hb h = absurd (omega arith)
same_bytes-eq (suc n) [] b ha hb h = absurd (omega arith)
same_bytes-eq (suc n) (x ∷ a) [] ha hb h = absurd (omega arith)
same_bytes-eq (suc n) (x ∷ a) (y ∷ b) ha hb h =
    ground (arith, same_bytes-eq n a b (omega arith) (omega arith))

same_bytes_self : (a : List ℕ) → same_bytes (length a) a a ≡ true
unfolding same_bytes
same_bytes_self [] = refl
same_bytes_self (x ∷ a) = ground (arith, same_bytes_self a)

-- The codes of a dictionary have the lengths that the nodes say.
abbrev Measured : Dict → Type 0
Measured dict = (i : ℕ) (n : MNode) → get_elem? dict i ≡ some n → length n.code ≡ n.code_l

-- What is found belongs to a node whose code is the buffer.
pub find_code_sound :
    (dict : Dict) (buffer : List ℕ) (b : ℕ)
    → Measured dict
    → find_code dict (length buffer) buffer ≡ some b
    → (i : ℕ) × (n : MNode) × (get_elem? dict i ≡ some n) × (n.code ≡ buffer) × (n.byte ≡ b)
unfolding find_code
find_code_sound [] buffer b m h = absurd (cc)
find_code_sound (node ∷ dict) buffer b m h =
    elim (Bool-cases
      ((node.code_l == length buffer) && same_bytes (length buffer) node.code buffer)) [
        | inl hit ↦ (
          0,
          node,
          refl,
          same_bytes-eq (length buffer) node.code buffer (ground (arith, m 0 node refl)) refl
              (ground arith),
          ground arith,
        )
        | inr miss ↦
            let (i, n, g, c, e) = find_code_sound dict buffer b (λ i. m (suc i)) (ground arith) in
            (suc i, n, g, c, e)
      ]

-- A code that is there is found, perhaps at a node before it.
pub find_code_complete :
    (dict : Dict) (j : ℕ) (n : MNode)
    → Measured dict
    → get_elem? dict j ≡ some n
    → (b : ℕ) × (find_code dict (length n.code) n.code ≡ some b)
unfolding find_code
find_code_complete [] j n m g = absurd (cc)
find_code_complete (node ∷ dict) zero n m g =
    (node.byte, ground (arith, m 0 node refl, same_bytes_self n.code))
find_code_complete (node ∷ dict) (suc j) n m g =
    let (b, e) = find_code_complete dict j n (λ i. m (suc i)) g in
    elim (Bool-cases
      ((node.code_l == length n.code) && same_bytes (length n.code) node.code n.code)) [
        | inl hit ↦ (node.byte, rw hit refl)
        | inr miss ↦ (b, rw miss e)
      ]

module _ (dict : Dict) (is_dict : IsDict dict) (free : IsPrefixFree dict) (j : ℕ) (node : MNode)
    (at : get_elem? dict j ≡ some node) where
  -- A node whose code starts the code of `node` is `node`.
  same_node :
      (i : ℕ) (n : MNode) (rest : List ℕ)
      → get_elem? dict i ≡ some n
      → n.code ++ rest ≡ node.code
      → n ≡ node
  same_node i n rest g e = let ij = free.apart i j n node rest g at e in ground arith

  -- The whole code is found, and stands for its index.
  pub find_code_whole : find_code dict (length node.code) node.code ≡ some j
  find_code_whole =
      let (b, e) = find_code_complete dict j node is_dict.code_length at in
      let (i, n, g, c, eb) = find_code_sound dict node.code b is_dict.code_length e in
      ground (arith, same_node i n [] g (append-nil n.code ∙ c), is_dict.byte_at j node at)

  -- No part of it at the front is found.
  pub find_code_part :
      (front rest : List ℕ)
      → front ++ rest ≡ node.code
      → rest ≢ []
      → find_code dict (length front) front ≡ none
  find_code_part front rest e ne = elim (Option-cases (find_code dict (length front) front)) [
    | inl h ↦ h
    | inr (b, h) ↦
        let (i, n, g, c, eb) = find_code_sound dict front b is_dict.code_length h in
        let same = same_node i n rest g (ap (λ l. l ++ rest) c ∙ e) in
        absurd (
          ne (
            nil_of_length rest (
              omega (
                arith,
                length-append front rest,
                ap length e,
                ap length c,
                ap (λ (m : MNode). length m.code) same,
              ))))
  ]
