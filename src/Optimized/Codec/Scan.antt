-- ===== src/Optimized/Codec/Scan.antt =====
-- `decompress_optimized` of compression_optimized.c on what `compress_optimized` makes.
use multiplexing_server.Base.{
  ℕ, zero, suc, ◌+◌, ◌*◌, ◌%◌, ◌^◌, ◌≤◌, ◌<◌, ◌≡◌, ◌≢◌, refl, ap, sym, ◌∙◌, none, some, List, [],
  ◌∷◌, ◌++◌, append_assoc, append-nil, ok, ◌>>=◌, get_elem?, get_elem?-of_lt, length, length-append,
  All, arith,
}
use multiplexing_server.Codec.Bits.{get_bit_lem, bits_from, unpack}
use multiplexing_server.Codec.Dict.{Dict, MNode, IsByte, IsDict, IsPrefixFree}
use multiplexing_server.Codec.Compress.Laws.{encode, code_at, code_at_lem}
use multiplexing_server.Codec.Decompress.{find_code}
use multiplexing_server.Codec.Decompress.Codes.{find_code_whole, find_code_part}
use multiplexing_server.Codec.Filling.Marked.{Marked}
use multiplexing_server.Codec.Tests.{
  plain, plain_node, plain_from, plain_lem, plain-IsDict, plain-IsPrefixFree,
}
use multiplexing_server.Optimized.Codec.{
  Scanned, take_bit, scan_byte, scan_bytes, fallback, create_map_optimized, compress_optimized,
  decompress_optimized,
}
use multiplexing_server.Optimized.Codec.Writing.{compress_optimized-Marked}

module _ (dict : Dict) where
  -- The two loops as one over the bits.
  scan_bits : List ℕ → Scanned → Scanned
  scan_bits [] s = s
  scan_bits (b ∷ bs) s = scan_bits bs (take_bit dict b s)

  scan_bits-append :
      (xs ys : List ℕ) (s : Scanned) → scan_bits (xs ++ ys) s ≡ scan_bits ys (scan_bits xs s)
  unfolding scan_bits
  scan_bits-append [] ys s = refl
  scan_bits-append (x ∷ xs) ys s = scan_bits-append xs ys (take_bit dict x s)

  scan_byte-bits :
      (b : ℕ)
      → b < 256
      → (j : ℕ) (s : Scanned) → j ≤ 8
      → scan_byte dict b j s ≡ scan_bits (bits_from j b) s
  unfolding scan_bits scan_byte
  scan_byte-bits b hb zero s h = refl
  scan_byte-bits b hb (suc j) s h =
      rw (get_bit_lem b j hb (omega arith)) (scan_byte-bits b hb j _ (omega arith))

  scan_bytes-bits :
      (bs : List ℕ) (s : Scanned) → All IsByte bs → scan_bytes dict bs s ≡ scan_bits (unpack bs) s
  unfolding scan_bytes unpack scan_bits
  scan_bytes-bits [] s h = refl
  scan_bytes-bits (b ∷ bs) s h =
      scan_bytes-bits bs _ h.1
      ∙ ap (scan_bits (unpack bs)) (scan_byte-bits b h.0 8 s (omega arith))
      ∙ sym (scan_bits-append (bits_from 8 b) (unpack bs) s)

  take_bit-part :
      (bit : ℕ) (front rep : List ℕ)
      → find_code dict (length (front ++ bit ∷ [])) (front ++ bit ∷ []) ≡ none
      → take_bit dict bit (record { buffer = front; rep = rep })
        ≡ record { buffer = front ++ bit ∷ []; rep = rep }
  unfolding take_bit
  take_bit-part bit front rep h = rw (h, take_bit) refl

  take_bit-whole :
      (bit b : ℕ) (front rep : List ℕ)
      → find_code dict (length (front ++ bit ∷ [])) (front ++ bit ∷ []) ≡ some b
      → take_bit dict bit (record { buffer = front; rep = rep })
        ≡ record { buffer = []; rep = rep ++ b ∷ [] }
  unfolding take_bit
  take_bit-whole bit b front rep h = rw (h, take_bit) refl

abbrev scanned : List ℕ → List ℕ → Scanned
scanned front rep = record { buffer = front; rep = rep }

module _ (dict : Dict) (d : IsDict dict) (f : IsPrefixFree dict) where
  scan_bits-code :
      (j : ℕ) (node : MNode) (at : get_elem? dict j ≡ some node) (back front rest rep : List ℕ)
      → front ++ back ≡ node.code
      → back ≢ []
      → scan_bits dict (back ++ rest) (scanned front rep)
        ≡ scan_bits dict rest (scanned [] (rep ++ j ∷ []))
  unfolding scan_bits
  scan_bits-code j node at [] front rest rep e ne = absurd (ne refl)
  scan_bits-code j node at (x ∷ []) front rest rep e ne =
      ap (scan_bits dict rest)
        (take_bit-whole dict x j front rep (rw e (find_code_whole dict d f j node at)))
  scan_bits-code j node at (x ∷ y ∷ back) front rest rep e ne =
      let e' : (front ++ x ∷ []) ++ y ∷ back ≡ node.code =
        append_assoc front (x ∷ []) (y ∷ back) ∙ e in
      ap (scan_bits dict ((y ∷ back) ++ rest)) (
        take_bit-part dict x front rep
          (find_code_part dict d f j node at (front ++ x ∷ []) (y ∷ back) e' (λ q. cc)))
      ∙ scan_bits-code j node at (y ∷ back) (front ++ x ∷ []) rest rep e' (λ q. cc)

  scan_bits-encode :
      (input rep : List ℕ)
      → All IsByte input
      → scan_bits dict (encode dict input) (scanned [] rep) ≡ scanned [] (rep ++ input)
  unfolding encode scan_bits
  scan_bits-encode [] rep h = ap (scanned []) (sym (append-nil rep))
  scan_bits-encode (b ∷ bs) rep h =
      let (n, g) = get_elem?-of_lt dict b (rw d.size h.0) in
      ap (λ c. scan_bits dict (c ++ encode dict bs) (scanned [] rep)) (code_at_lem dict b n g)
      ∙ scan_bits-code b n g n.code [] (encode dict bs) rep refl (f.nonempty b n g)
      ∙ scan_bits-encode bs (rep ++ b ∷ []) h.1
      ∙ ap (scanned []) (append_assoc rep (b ∷ []) bs)

  decompress_optimized-Marked :
      (input result : List ℕ)
      → All IsByte input
      → length (encode dict input) % 8 ≡ 0
      → Marked (encode dict input) result
      → decompress_optimized dict result ≡ input
  unfolding decompress_optimized scan_bytes
  decompress_optimized-Marked input result h z p =
      let none_left : p.fill ≡ 0 = omega (arith, p.whole, z, p.fill_lt) in
      scanned_of result
      ∙ ap (λ (s : Scanned). s.rep)
          (scan_bytes-bits dict result (scanned [] []) p.bytes
            ∙ ap (λ l. scan_bits dict l (scanned [] []))
                (p.unpacks
                  ∙ ap (λ n. encode dict input ++ bits_from n n) none_left
                  ∙ append-nil (encode dict input))
            ∙ scan_bits-encode input [] h)
    where
      scanned_of :
          (bs : List ℕ) → decompress_optimized dict bs ≡ (scan_bytes dict bs (scanned [] [])).rep
      scanned_of [] = refl
      scanned_of (b ∷ bs) = refl

  -- Over a prefix-free dictionary of 256 codes, data of one byte or more whose codes fill whole bytes
  -- and have fewer than 2^31 bits in all comes back from `decompress_optimized` as it went into
  -- `compress_optimized`.
  pub decompress_optimized-compress_optimized :
      (input : List ℕ)
      → All IsByte input
      → input ≢ []
      → length (encode dict input) < 2 ^ 31
      → length (encode dict input) % 8 ≡ 0
      → (compress_optimized dict input >>= λ result. ok (decompress_optimized dict result))
        ≡ ok input
  decompress_optimized-compress_optimized input h ne lt z =
      let (result, e, p) = compress_optimized-Marked dict input d h ne lt in
      rw e (ap ok (decompress_optimized-Marked input result h z p))

fallback_eq : (n i : ℕ) → fallback n i ≡ plain_from n i
unfolding fallback plain_from
fallback_eq zero i = refl
fallback_eq (suc n) i = ap (◌∷◌ (plain_node i)) (fallback_eq n (i + 1))

create_map_optimized-none : create_map_optimized none ≡ ok plain
unfolding create_map_optimized plain
create_map_optimized-none = ap ok (fallback_eq 256 0)

plain-code_at-length : (b : ℕ) → b < 256 → length (code_at plain b) ≡ 8
plain-code_at-length b h =
    let (n, g) = get_elem?-of_lt plain b (rw plain-IsDict.size h) in
    rw (code_at_lem plain b n g) (rw (plain_lem b n g).0 refl)

plain-encode-length : (bs : List ℕ) → All IsByte bs → length (encode plain bs) ≡ 8 * length bs
unfolding encode
plain-encode-length [] h = omega arith
plain-encode-length (b ∷ bs) h = omega (
  arith,
  length-append (code_at plain b) (encode plain bs),
  plain-code_at-length b h.0,
  plain-encode-length bs h.1,
)

-- Without a dictionary file, data of one byte or more, fewer than 2^28, comes back from
-- `decompress_optimized` as it went into `compress_optimized`, over the dictionary that
-- `create_map_optimized` then makes.
pub create_map_optimized-round_trip :
    (input : List ℕ)
    → All IsByte input
    → input ≢ []
    → length input < 2 ^ 28
    → (create_map_optimized none >>= λ dict.
        compress_optimized dict input >>= λ result. ok (decompress_optimized dict result))
      ≡ ok input
create_map_optimized-round_trip input h ne lt = rw create_map_optimized-none (
    decompress_optimized-compress_optimized plain plain-IsDict plain-IsPrefixFree input h ne
      (omega (arith, plain-encode-length input h, lt)) (omega (arith, plain-encode-length input h)))
