-- ===== src/Trie/Scan.antt =====
-- The walk of `decompress_optimized` through the trie, over the bits of the codes.
use mathlib.Core.List.{reverse-cons}
use multiplexing_server.Base.{
  ℕ, zero, suc, ◌≤◌, ◌<◌, ◌≡◌, ◌≢◌, refl, ap, sym, ◌∙◌, true, false, none, some, List, [], ◌∷◌,
  ◌++◌, reverse, append_assoc, get_elem?, get_elem?-of_lt, length, length-append, All, arith,
}
use multiplexing_server.Codec.Bits.{get_bit_lem, bits_from, unpack}
use multiplexing_server.Codec.Dict.{Dict, MNode, IsByte, IsDict, IsPrefixFree}
use multiplexing_server.Codec.Compress.Laws.{encode, code_at, code_at_lem}
use multiplexing_server.Trie.{
  TrieNode, null, node, CompressionMap, child, Walk, visit, follow, follow_byte, follow_bytes,
}
use multiplexing_server.Trie.Insert.{sub, leaf_of, leaf_at, IsNode}
use multiplexing_server.Trie.Build.{IsMapOf}

module _ (root : TrieNode) where
  -- The two loops as one over the bits.
  unfoldable pub follow_bits : List ℕ → Walk → Walk
  follow_bits [] w = w
  follow_bits (bit ∷ bits) w = follow_bits bits (follow root bit w)

  follow_bits-append :
      (xs ys : List ℕ) (w : Walk) → follow_bits (xs ++ ys) w ≡ follow_bits ys (follow_bits xs w)
  unfolding follow_bits
  follow_bits-append [] ys w = refl
  follow_bits-append (x ∷ xs) ys w = follow_bits-append xs ys (follow root x w)

  follow_byte-bits :
      (b : ℕ)
      → b < 256
      → (j : ℕ) (w : Walk) → j ≤ 8
      → follow_byte root b j w ≡ follow_bits (bits_from j b) w
  unfolding follow_bits follow_byte
  follow_byte-bits b hb zero w h = refl
  follow_byte-bits b hb (suc j) w h =
      rw (get_bit_lem b j hb (omega arith)) (follow_byte-bits b hb j _ (omega arith))

  pub follow_bytes-bits :
      (bs : List ℕ) (w : Walk) → All IsByte bs → follow_bytes root bs w ≡ follow_bits (unpack bs) w
  unfolding follow_bytes unpack follow_bits
  follow_bytes-bits [] w h = refl
  follow_bytes-bits (b ∷ bs) w h =
      follow_bytes-bits bs _ h.1
      ∙ ap (follow_bits (unpack bs)) (follow_byte-bits b h.0 8 w (omega arith))
      ∙ sym (follow_bits-append (bits_from 8 b) (unpack bs) w)

  visit-leaf :
      (t : TrieNode) (byte : ℕ) (out : List ℕ)
      → leaf_of t ≡ some byte
      → visit root out t ≡ some (root, byte ∷ out)
  unfolding visit
  visit-leaf null byte out e = absurd (cc)
  visit-leaf (node left right b true) byte out e = ground arith
  visit-leaf (node left right b false) byte out e = absurd (cc)

  visit-inner :
      (t : TrieNode) (out : List ℕ) → IsNode t → leaf_of t ≡ none → visit root out t ≡ some (t, out)
  unfolding visit
  visit-inner null out k e = absurd k
  visit-inner (node left right b true) out k e = absurd (cc)
  visit-inner (node left right b false) out k e = refl

sub-snoc :
    (t : TrieNode) (path : List ℕ) (bit : ℕ) → sub t (path ++ bit ∷ []) ≡ child bit (sub t path)
sub-snoc t [] bit = refl
sub-snoc t (x ∷ path) bit = sub-snoc (child x t) path bit

module _ (dict : Dict) (free : IsPrefixFree dict) (m : CompressionMap)
    (is_map : IsMapOf dict m) where
  module _ (j : ℕ) (n : MNode) (at : get_elem? dict j ≡ some n) where
    -- A part of the code is no code.
    part_of-ne :
        (front : List ℕ) (y : ℕ) (back : List ℕ)
        → front ++ y ∷ back ≡ n.code
        → (i : ℕ) (n' : MNode) → get_elem? dict i ≡ some n'
        → front ≢ n'.code
    part_of-ne front y back e i n' g q =
        let ij = free.apart i j n' n (y ∷ back) g at (ap (λ l. l ++ y ∷ back) (sym q) ∙ e) in
        let same : n' ≡ n = ground arith in
        omega (
          arith,
          length-append front (y ∷ back),
          ap length e,
          ap length q,
          ap (λ (m : MNode). length m.code) same,
        )

    -- A bit that does not end the code.
    follow-part :
        (front : List ℕ) (bit y : ℕ) (back out : List ℕ)
        → front ++ bit ∷ y ∷ back ≡ n.code
        → follow m.root bit (some (sub m.root front, out))
          ≡ some (sub m.root (front ++ bit ∷ []), out)
    unfolding follow
    follow-part front bit y back out e =
        let e' : (front ++ bit ∷ []) ++ y ∷ back ≡ n.code =
          append_assoc front (bit ∷ []) (y ∷ back) ∙ e in
        rw (← sub-snoc m.root front bit) (
          visit-inner m.root (sub m.root (front ++ bit ∷ [])) out
            (is_map.part j n (front ++ bit ∷ []) (y ∷ back) at e')
            (is_map.other (front ++ bit ∷ []) (part_of-ne (front ++ bit ∷ []) y back e')))

    -- The last bit of the code.
    follow-whole :
        (front : List ℕ) (bit : ℕ) (out : List ℕ)
        → front ++ bit ∷ [] ≡ n.code
        → follow m.root bit (some (sub m.root front, out)) ≡ some (m.root, j ∷ out)
    unfolding follow
    follow-whole front bit out e = rw (← sub-snoc m.root front bit) (
        visit-leaf m.root (sub m.root (front ++ bit ∷ [])) j out
          (ap (leaf_at m.root) e ∙ is_map.leaf j n at))

    follow_bits-code :
        (front back rest out : List ℕ)
        → front ++ back ≡ n.code
        → back ≢ []
        → follow_bits m.root (back ++ rest) (some (sub m.root front, out))
          ≡ follow_bits m.root rest (some (m.root, j ∷ out))
    unfolding follow_bits
    follow_bits-code front [] rest out e ne = absurd (ne refl)
    follow_bits-code front (x ∷ []) rest out e ne =
        ap (follow_bits m.root rest) (follow-whole front x out e)
    follow_bits-code front (x ∷ y ∷ back) rest out e ne =
        ap (follow_bits m.root ((y ∷ back) ++ rest)) (follow-part front x y back out e)
        ∙ follow_bits-code (front ++ x ∷ []) (y ∷ back) rest out
            (append_assoc front (x ∷ []) (y ∷ back) ∙ e) (λ q. cc)

    -- A part of the code puts nothing out.
    pub follow_bits-part :
        (front mid : List ℕ) (y : ℕ) (back out : List ℕ)
        → front ++ (mid ++ y ∷ back) ≡ n.code
        → (t : TrieNode) × (follow_bits m.root mid (some (sub m.root front, out)) ≡ some (t, out))
    unfolding follow_bits
    follow_bits-part front [] y back out e = (sub m.root front, refl)
    follow_bits-part front (x ∷ []) y back out e = (_, follow-part front x y back out e)
    follow_bits-part front (x ∷ z ∷ mid) y back out e =
        let (t, q) =
          follow_bits-part (front ++ x ∷ []) (z ∷ mid) y back out
            (append_assoc front (x ∷ []) ((z ∷ mid) ++ y ∷ back) ∙ e) in
        (t, ap (follow_bits m.root (z ∷ mid)) (follow-part front x z (mid ++ y ∷ back) out e) ∙ q)

  module _ (is_dict : IsDict dict) where
    -- The codes of the data, from the root on.
    pub follow_bits-encode :
        (input rest out : List ℕ)
        → All IsByte input
        → follow_bits m.root (encode dict input ++ rest) (some (m.root, out))
          ≡ follow_bits m.root rest (some (m.root, reverse input ++ out))
    unfolding encode
    follow_bits-encode [] rest out h = refl
    follow_bits-encode (b ∷ bs) rest out h =
        let (n, g) = get_elem?-of_lt dict b (rw is_dict.size h.0) in
        ap (λ l. follow_bits m.root l (some (m.root, out)))
          (append_assoc (code_at dict b) (encode dict bs) rest
            ∙ ap (λ c. c ++ (encode dict bs ++ rest)) (code_at_lem dict b n g))
        ∙ follow_bits-code b n g [] n.code (encode dict bs ++ rest) out refl (free.nonempty b n g)
        ∙ follow_bits-encode bs rest (b ∷ out) h.1
        ∙ ap (λ l. follow_bits m.root rest (some (m.root, l)))
            (sym (append_assoc (reverse bs) (b ∷ []) out)
              ∙ ap (λ l. l ++ out) (sym (reverse-cons b bs)))
