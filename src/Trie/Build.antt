-- ===== src/Trie/Build.antt =====
-- `create_map_optimized` of compression_opt.c against `create_map` of compression.c: of the same file
-- they make the same codes, and the trie leads from each code to its byte.
use multiplexing_server.Base.{
  ℕ, zero, suc, ◌+◌, ◌*◌, ◌%◌, ◌<◌, ◌≡◌, ◌≢◌, refl, ap, ap₂, sym, ◌∙◌, inl, inr, true, none, some,
  Option-cases, List, [], ◌∷◌, ◌++◌, Outcome, ok, >>=-eq-ok, Ends-ok, get_elem?, length, All, ◌==◌,
  ==_iff, all_below, all_below_sound, append-nil, arith,
}
use multiplexing_server.Codec.Bits.{bits_from}
use multiplexing_server.Codec.Dict.{
  Dict, MNode, Cursor, advance, read_bit, read_bits, read_nodes, size_from, create_map, IsBit,
  IsByte, IsPrefixFree,
}
use multiplexing_server.Codec.Dict.Read.{InByte}
use multiplexing_server.Codec.Dict.Laws.{size_from_lem, ReadBits, read_bits-Ends}
use multiplexing_server.Trie.{
  TrieNode, create_trie_node, CodeEntry, CompressionMap, read_code, length_from, read_entries,
  create_map_optimized,
}
use multiplexing_server.Trie.Insert.{
  sub, leaf_at, leaf_at-create_trie_node, IsNode, Inserted, insert_trie-Inserted,
}

-- Where `create_map` reads bits, so do the loops that look for the end of the file.
read_code-read_bits :
    (buffer : List ℕ) (before : ℕ → ℕ) (n i : ℕ) (c : Cursor) (bits : List ℕ) (c' : Cursor)
    → read_bits buffer n c ≡ ok (bits, c')
    → read_code buffer before n i c ≡ (bits, c')
unfolding read_code read_bits read_bit
read_code-read_bits buffer before zero i c bits c' e = ground arith
read_code-read_bits buffer before (suc n) i c bits c' e =
    elim (Option-cases (get_elem? buffer c.current_byte)) [
      | inl g ↦ absurd (let z = rw g at e in cc)
      | inr (b, g) ↦
          let e1 = rw g at e in
          let (rest, e2, e3) = >>=-eq-ok (read_bits buffer n (advance c)) _ e1 in
          let t = read_code-read_bits buffer before n (i + 1) (advance c) rest.0 rest.1 e2 in
          rw (g, read_code) (rw t (ground arith))
    ]

length_table : all_below 256 (λ v. length_from (bits_from 8 v) 7 0 == v) ≡ true
unfolding all_below length_from
length_table = refl

bits_value :
    (len : List ℕ) → length len ≡ 8 → All IsBit len → (v : ℕ) × (v < 256) × (len ≡ bits_from 8 v)
bits_value (a ∷ b ∷ c ∷ d ∷ e ∷ f ∷ g ∷ h ∷ []) l bs =
    let v = 128 * a + 64 * b + 32 * c + 16 * d + 8 * e + 4 * f + 2 * g + h in
    let (ha, (hb, (hc, (hd, (he, (hf, (hg, (hh, _)))))))) = bs in
    (
      v,
      omega arith,
      ap₂ ◌∷◌ (omega arith) (
          ap₂ ◌∷◌ (omega arith) (
            ap₂ ◌∷◌ (omega arith) (
              ap₂ ◌∷◌ (omega arith) (
                ap₂ ◌∷◌ (omega arith)
                  (ap₂ ◌∷◌ (omega arith) (ap₂ ◌∷◌ (omega arith) (ap₂ ◌∷◌ (omega arith) refl))))))),
    )
bits_value [] l bs = absurd (omega arith)
bits_value (a ∷ []) l bs = absurd (omega arith)
bits_value (a ∷ b ∷ []) l bs = absurd (omega arith)
bits_value (a ∷ b ∷ c ∷ []) l bs = absurd (omega arith)
bits_value (a ∷ b ∷ c ∷ d ∷ []) l bs = absurd (omega arith)
bits_value (a ∷ b ∷ c ∷ d ∷ e ∷ []) l bs = absurd (omega arith)
bits_value (a ∷ b ∷ c ∷ d ∷ e ∷ f ∷ []) l bs = absurd (omega arith)
bits_value (a ∷ b ∷ c ∷ d ∷ e ∷ f ∷ g ∷ []) l bs = absurd (omega arith)
bits_value (a ∷ b ∷ c ∷ d ∷ e ∷ f ∷ g ∷ h ∷ i ∷ len) l bs = absurd (omega arith)

-- The two ways of putting a length together.
length_from-size_from :
    (len : List ℕ) → length len ≡ 8 → All IsBit len → length_from len 7 0 ≡ size_from len 7 0
length_from-size_from len l h =
    let (v, hv, e) = bits_value len l h in
    rw e ((==_iff _ v).0 (all_below_sound 256 _ v length_table hv) ∙ sym (size_from_lem v hv))

-- The table that goes with a dictionary.
abbrev pub entries_of : Dict → List CodeEntry
entries_of [] = []
entries_of (n ∷ dict) = record { code_length = n.code_l; code = n.code } ∷ entries_of dict

-- No two bytes have the same code.
abbrev Distinct : Dict → Type 0
Distinct dict =
    (j k : ℕ) (m n : MNode)
    → get_elem? dict j ≡ some m
    → get_elem? dict k ≡ some n
    → m.code ≡ n.code
    → j ≡ k

-- A trie in which the codes of `dict` have been put, for the bytes from `byte_val` on.
record Built (root : TrieNode) (byte_val : ℕ) (dict : Dict)
    (r : Outcome (List CodeEntry × TrieNode)) : Type 0 where
  out : TrieNode
  returns : r ≡ ok (entries_of dict, out)
  is_node : IsNode out
  leaf : (j : ℕ) (n : MNode) → get_elem? dict j ≡ some n → leaf_at out n.code ≡ some (byte_val + j)
  other :
      (path : List ℕ)
      → ((j : ℕ) (n : MNode) → get_elem? dict j ≡ some n → path ≢ n.code)
      → leaf_at out path ≡ leaf_at root path
  part :
      (j : ℕ) (n : MNode) (front back : List ℕ)
      → get_elem? dict j ≡ some n
      → front ++ back ≡ n.code
      → IsNode (sub out front)
  kept : (path : List ℕ) → IsNode (sub root path) → IsNode (sub out path)

-- One code, and the rest of them.
Built-cons :
    (root : TrieNode) (byte_val : ℕ) (n : MNode) (dict : Dict) (r : Outcome TrieNode)
    (r' : Outcome (List CodeEntry × TrieNode)) (w : Inserted root n.code byte_val r)
    (v : Built w.out (byte_val + 1) dict r') (r'' : Outcome (List CodeEntry × TrieNode))
    → Distinct (n ∷ dict)
    → r'' ≡ ok (entries_of (n ∷ dict), v.out)
    → Built root byte_val (n ∷ dict) r''
Built-cons root byte_val n dict r r' w v r'' d e = record {
  out = v.out;
  returns = e;
  is_node = v.is_node;
  leaf = λ j m g. leaf j m g;
  other = λ path h. v.other path (λ j m g. h (suc j) m g) ∙ w.other path (h 0 n refl);
  part = λ j m front back g q. part j m front back g q;
  kept = λ path k. v.kept path (w.kept path k);
}
  where
    leaf :
        (j : ℕ) (m : MNode)
        → get_elem? (n ∷ dict) j ≡ some m
        → leaf_at v.out m.code ≡ some (byte_val + j)
    leaf zero m g =
        let same : n ≡ m = ground arith in
        let zero_more : byte_val + 0 ≡ byte_val = omega arith in
        rw (← same) (
          v.other n.code (λ k m' g' q. absurd (omega (arith, d 0 (suc k) n m' refl g' q)))
          ∙ w.leaf
          ∙ ap some (sym zero_more))
    leaf (suc j) m g = v.leaf j m g ∙ ap some (omega arith)

    part :
        (j : ℕ) (m : MNode) (front back : List ℕ)
        → get_elem? (n ∷ dict) j ≡ some m
        → front ++ back ≡ m.code
        → IsNode (sub v.out front)
    part zero m front back g q =
        let same : n ≡ m = ground arith in
        v.kept front (w.part front back (q ∙ ap (λ (m : MNode). m.code) (sym same)))
    part (suc j) m front back g q = v.part j m front back g q

module _ (file : List ℕ) (bytes : All IsByte file) (junk : ℕ → ℕ) where
  read_entries-Built :
      (n byte_val curr : ℕ) (c : Cursor) (root : TrieNode) (dict : Dict)
      → InByte c
      → IsNode root
      → read_nodes file n curr c ≡ ok dict
      → Distinct dict
      → Built root byte_val dict (read_entries file junk n byte_val c root)
  unfolding read_entries read_nodes
  read_entries-Built zero byte_val curr c root dict v k e d =
      let nil : [] ≡ dict = ground arith in
      rw (← nil) (record {
        out = root;
        returns = refl;
        is_node = k;
        leaf = λ j n g. absurd (cc);
        other = λ path h. refl;
        part = λ j n front back g q. absurd (cc);
        kept = λ path q. q;
      })
  read_entries-Built (suc n) byte_val curr c root dict v k e d =
      let ((len, c1), e1, k1) = >>=-eq-ok (read_bits file 8 c) _ e in
      let ((code, c2), e2, k2) = >>=-eq-ok (read_bits file (size_from len 7 0) c1) _ k1 in
      let (rest, e3, k3) = >>=-eq-ok (read_nodes file n ((curr + 1) % 256) c2) _ k2 in
      let b1 =
        Ends-ok (ReadBits 8) (read_bits file 8 c) (len, c1) (read_bits-Ends file bytes 8 c v) e1 in
      let b2 =
        Ends-ok (ReadBits (size_from len 7 0)) (read_bits file (size_from len 7 0) c1) (code, c2)
          (read_bits-Ends file bytes (size_from len 7 0) c1 b1.2) e2 in
      let node : MNode = record { byte = curr; code_l = size_from len 7 0; code = code } in
      let is_dict : node ∷ rest ≡ dict = ground arith in
      let distinct : Distinct (node ∷ rest) = rw is_dict d in
      let w = insert_trie-Inserted code byte_val root b2.1 k in
      let u =
        read_entries-Built n (byte_val + 1) ((curr + 1) % 256) c2 w.out rest b2.2 w.is_node e3
          (λ i j m m' g g' q. let t = distinct (suc i) (suc j) m m' g g' q in omega (arith, t)) in
      rw (← is_dict) (
        Built-cons root byte_val node rest _ _ w u _ distinct (
          rw (read_code-read_bits file (λ i. 0) 8 0 c len c1 e1) (
            rw (length_from-size_from len b1.0 b1.1) (
              rw (read_code-read_bits file junk (size_from len 7 0) 0 c1 code c2 e2)
                (rw w.returns (rw u.returns refl))))))

-- What the codec relies on: the codes of `dict` in the table, and a trie in which the path of a code
-- ends at a leaf with its byte, the path of a part of one at a node, and no other path at a leaf.
pub record IsMapOf (dict : Dict) (m : CompressionMap) : Type 0 where
  pub table : m.encode_table ≡ entries_of dict
  pub is_node : IsNode m.root
  pub leaf : (j : ℕ) (n : MNode) → get_elem? dict j ≡ some n → leaf_at m.root n.code ≡ some j
  pub other :
      (path : List ℕ)
      → ((j : ℕ) (n : MNode) → get_elem? dict j ≡ some n → path ≢ n.code)
      → leaf_at m.root path ≡ none
  pub part :
      (j : ℕ) (n : MNode) (front back : List ℕ)
      → get_elem? dict j ≡ some n
      → front ++ back ≡ n.code
      → IsNode (sub m.root front)

-- From a file of which `create_map` makes a prefix-free dictionary, `create_map_optimized` makes a
-- table with the same codes and a trie in which the path of each code ends at a leaf with its byte, the
-- path of each part of a code at a node, and no other path at a leaf.
pub create_map_optimized-create_map :
    (junk : ℕ → ℕ) (file : List ℕ) (dict : Dict)
    → All IsByte file
    → create_map (some file) ≡ ok dict
    → IsPrefixFree dict
    → (m : CompressionMap) × (create_map_optimized junk (some file) ≡ ok m) × IsMapOf dict m
unfolding create_map_optimized create_map
create_map_optimized-create_map junk file dict hb e free =
    let start : Cursor = record { current_byte = 0; curr_byte_bit = 8 } in
    let distinct : Distinct dict =
      λ j k m n g g' q. free.apart j k m n [] g g' (append-nil m.code ∙ q) in
    let b =
      read_entries-Built file hb junk 256 0 0 start create_trie_node dict (omega arith) tt e
        distinct in
    (
      record { root = b.out; encode_table = entries_of dict },
      rw b.returns refl,
      record {
        table = refl;
        is_node = b.is_node;
        leaf = λ j n g. b.leaf j n g ∙ ap some (omega arith);
        other = λ path h. b.other path h ∙ leaf_at-create_trie_node path;
        part = b.part;
      },
    )
