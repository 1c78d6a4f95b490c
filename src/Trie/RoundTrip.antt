-- ===== src/Trie/RoundTrip.antt =====
-- `decompress_optimized` of what `compress_optimized` makes of data that it makes shorter.
use mathlib.Core.List.{reverse-reverse}
use multiplexing_server.Base.{
  ℕ, zero, suc, ◌+◌, ◌-◌, ◌*◌, ◌/◌, ◌%◌, ◌≤◌, ◌<◌, ◌≡◌, ◌≢◌, ◌⊎◌, refl, ap, sym, ◌∙◌, inl, inr,
  some, List, [], ◌∷◌, ◌++◌, reverse, append-nil, replicate, length-replicate, ok, ◌>>=◌, get_elem?,
  length, length-append, All, arith,
}
use multiplexing_server.Codec.Bits.{length-unpack}
use multiplexing_server.Codec.Dict.{Dict, MNode, IsByte, IsDict, IsPrefixFree}
use multiplexing_server.Codec.Compress.Laws.{encode}
use multiplexing_server.Trie.{
  TrieNode, CompressionMap, follow_bytes, compress_optimized, decompress_optimized,
}
use multiplexing_server.Trie.Build.{IsMapOf}
use multiplexing_server.Trie.Writing.{compress_optimized-Compressed}
use multiplexing_server.Codec.Filling.{Fills}
use multiplexing_server.Trie.Scan.{
  follow_bits, follow_bytes-bits, follow_bits-part, follow_bits-encode,
}

-- Some code starts with seven zeros and has a bit more.
abbrev pub HasLongZeros : Dict → Type 0
HasLongZeros dict =
    (j : ℕ) × (n : MNode) × (y : ℕ) × (back : List ℕ) × (get_elem? dict j ≡ some n)
    × (n.code ≡ replicate 7 0 ++ y ∷ back)

replicate_add :
    (k l : ℕ) (xs : List ℕ) → replicate (k + l) 0 ++ xs ≡ replicate k 0 ++ (replicate l 0 ++ xs)
replicate_add zero l xs = ap (λ i. replicate i 0 ++ xs) (omega arith)
replicate_add (suc k) l xs =
    let e : suc k + l ≡ suc (k + l) = omega arith in rw e (ap (◌∷◌ 0) (replicate_add k l xs))

module _ (dict : Dict) (m : CompressionMap) (d : IsDict dict) (f : IsPrefixFree dict)
    (i : IsMapOf dict m) where
  -- The zeros that fill up the last byte put nothing out.
  follow_bits-fill :
      (fill total : ℕ) (out : List ℕ)
      → fill < 8
      → (total + fill) % 8 ≡ 0
      → (total % 8 ≡ 0) ⊎ HasLongZeros dict
      → (t : TrieNode) × (follow_bits m.root (replicate fill 0) (some (m.root, out))
          ≡ some (t, out))
  unfolding follow_bits
  follow_bits-fill fill total out lt e (inl z) =
      let none_left : fill ≡ 0 = omega (arith, lt, e, z) in (m.root, rw none_left refl)
  follow_bits-fill fill total out lt e (inr (j, n, y, back, g, c)) =
      zeros fill (7 - fill) (omega arith)
    where
      zeros :
          (k l : ℕ)
          → k + l ≡ 7
          → (t : TrieNode) × (follow_bits m.root (replicate k 0) (some (m.root, out))
              ≡ some (t, out))
      zeros k zero s =
          follow_bits-part dict f m i j n g [] (replicate k 0) y back out
            (let e7 : k ≡ 7 = omega arith in ap (λ q. replicate q 0 ++ y ∷ back) e7 ∙ sym c)
      zeros k (suc l) s =
          follow_bits-part dict f m i j n g [] (replicate k 0) 0 (replicate l 0 ++ y ∷ back) out (
            sym (replicate_add k (suc l) (y ∷ back))
            ∙ ap (λ q. replicate q 0 ++ y ∷ back) s
            ∙ sym c)

  decompress_optimized-Fills :
      (input result : List ℕ)
      → All IsByte input
      → Fills (encode dict input) result
      → (length (encode dict input) % 8 ≡ 0) ⊎ HasLongZeros dict
      → decompress_optimized m result ≡ input
  unfolding decompress_optimized
  decompress_optimized-Fills input result h p z =
      let bits = encode dict input in
      let whole : (length bits + p.fill) % 8 ≡ 0 = omega (
        arith,
        length-unpack result,
        ap length p.unpacks,
        length-append bits (replicate {A = ℕ} p.fill 0),
        length-replicate {A = ℕ} p.fill 0,
      ) in
      let (t, q) = follow_bits-fill p.fill (length bits) (reverse input ++ []) p.fill_lt whole z in
      let run : follow_bytes m.root result (some (m.root, [])) ≡ some (t, reverse input ++ []) =
        follow_bytes-bits m.root result (some (m.root, [])) p.bytes
        ∙ ap (λ l. follow_bits m.root l (some (m.root, []))) p.unpacks
        ∙ follow_bits-encode dict f m i d input (replicate p.fill 0) [] h
        ∙ q in
      rw (run, decompress_optimized)
        (ap reverse (append-nil (reverse input)) ∙ reverse-reverse input)

  -- Data that `compress_optimized` makes shorter comes back from `decompress_optimized`, over the map
  -- of a prefix-free dictionary, if its codes have 64 bits per byte at most, and either fill whole
  -- bytes or the dictionary has a code that starts with seven zeros and is longer.
  pub decompress_optimized-shorter :
      (input : List ℕ)
      → All IsByte input
      → input ≢ []
      → length (encode dict input) ≤ 64 * length input
      → (length (encode dict input) + 7) / 8 < length input
      → (length (encode dict input) % 8 ≡ 0) ⊎ HasLongZeros dict
      → (compress_optimized m input >>= λ result. ok (decompress_optimized m result)) ≡ ok input
  decompress_optimized-shorter input h ne le shorter z =
      let (result, e, c) = compress_optimized-Compressed dict m input d i h ne le in
      rw e (
        ap ok (elim c [
          | inl (small, p) ↦ decompress_optimized-Fills input result h p z
          | inr (long, same) ↦ absurd (omega arith)
        ]))
