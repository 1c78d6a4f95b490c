-- ===== src/Trie/Writing.antt =====
-- `compress_optimized` of compression_opt.c: the bits that its output holds, and what it makes of the
-- data.
use multiplexing_server.Base.{
  ℕ, zero, suc, ◌+◌, ◌-◌, ◌*◌, ◌/◌, ◌≤◌, ◌<◌, ◌≡◌, ◌≢◌, ◌⊎◌, refl, ap, subst, sym, ◌∙◌, inl, inr,
  Bool-cases, some, List, [], ◌∷◌, ◌++◌, reverse, append-nil, ok, get_elem?, get_elem?-of_lt,
  length, length-append, take, le→leb, ltb, ◌==◌, ==_of_ne, if◌then◌else◌, All, arith,
}
use multiplexing_server.Codec.Bits.{backwards}
use multiplexing_server.Codec.Dict.{Dict, MNode, IsBit, IsByte, IsDict}
use multiplexing_server.Codec.Compress.Laws.{encode, code_at, code_at_lem}
use multiplexing_server.Codec.Filling.{
  IsValid, put_byte, next_at, Wrote, Wrote-nil, Wrote-trans, Wrote-bit, Fills, finish-Fills,
}
use multiplexing_server.Trie.{
  CompressionMap, Output, set_at, put_bit, put_code, put_bytes, compress_optimized,
}
use multiplexing_server.Trie.Build.{entries_of, IsMapOf}

-- An output with the byte `b` in work at bit `k` and the bytes `bs` before it, the last first.
abbrev output_at : ℕ → List ℕ → ℕ → Output
output_at b bs k = record {
  bytes = b ∷ bs;
  bit_index = k;
  compressed_bits = 8 * length bs + (7 - k);
}

get_elem?-entries_of :
    (d : Dict) (i : ℕ) (n : MNode)
    → get_elem? d i ≡ some n
    → get_elem? (entries_of d) i ≡ some (record { code_length = n.code_l; code = n.code })
get_elem?-entries_of [] i n e = absurd (cc)
get_elem?-entries_of (m ∷ d) zero n e = let same : m ≡ n = ground arith in rw same refl
get_elem?-entries_of (m ∷ d) (suc i) n e = get_elem?-entries_of d i n e

module _ (room : ℕ) where
  put_bit_bytes :
      (bit b : ℕ) (bs : List ℕ) (k : ℕ)
      → length bs < room
      → (if bit == 0 then ok (b ∷ bs) else set_at room k (b ∷ bs)) ≡ ok (put_byte bit k b ∷ bs)
  unfolding set_at
  put_bit_bytes zero b bs k lt = refl
  put_bit_bytes (suc bit) b bs k lt =
      rw (==_of_ne (suc bit) 0 (omega arith), le→leb (suc (length bs)) room (omega arith)) refl

  put_bit-next :
      (bit b : ℕ) (bs : List ℕ) (k : ℕ)
      → k < 8
      → 8 * length bs + (7 - k) < 8 * room
      → put_bit room bit (output_at b bs k) ≡ ok (next_at output_at bit b bs k)
  unfolding put_bit
  put_bit-next bit b bs zero hk lt = rw (put_bit_bytes bit b bs 0 (omega arith)) (
      ap
        (λ n. ok (record { bytes = 0 ∷ put_byte bit 0 b ∷ bs; bit_index = 7; compressed_bits = n }))
        (omega arith))
  put_bit-next bit b bs (suc k) hk lt =
      let pred : suc k - 1 ≡ k = omega arith in
      rw (put_bit_bytes bit b bs (suc k) (omega arith)) (
        rw (==_of_ne (suc k) 0 (omega arith), pred)
          (ap
            (λ n.
              ok (record {
                bytes = put_byte bit (suc k) b ∷ bs;
                bit_index = k;
                compressed_bits = n;
              }))
            (omega arith)))

  put_code-Wrote :
      (code : List ℕ) (b : ℕ) (bs : List ℕ) (k : ℕ)
      → All IsBit code
      → IsValid b bs k
      → 8 * length bs + (7 - k) + length code ≤ 8 * room
      → Wrote output_at b bs k code (put_code room code (output_at b bs k))
  unfolding put_code
  put_code-Wrote [] b bs k h v le = Wrote-nil output_at b bs k v
  put_code-Wrote (bit ∷ code) b bs k h v le =
      let w =
        Wrote-bit output_at bit b bs k (put_bit room bit (output_at b bs k)) h.0 v
          (put_bit-next bit b bs k v.index (omega arith)) in
      let u = put_code-Wrote code w.b' w.bs' w.k' h.1 w.valid (omega (arith, w.count)) in
      rw w.returns (Wrote-trans output_at w u)

  module _ (dict : Dict) (is_dict : IsDict dict) where
    put_bytes-Wrote :
        (input : List ℕ) (b : ℕ) (bs : List ℕ) (k : ℕ)
        → All IsByte input
        → IsValid b bs k
        → 8 * length bs + (7 - k) + length (encode dict input) ≤ 8 * room
        → Wrote output_at b bs k
            (encode dict input)
            (put_bytes room (entries_of dict) input (output_at b bs k))
    unfolding put_bytes encode
    put_bytes-Wrote [] b bs k h v le = Wrote-nil output_at b bs k v
    put_bytes-Wrote (x ∷ input) b bs k h v le =
        let (n, g) = get_elem?-of_lt dict x (rw is_dict.size h.0) in
        let e = code_at_lem dict x n g in
        let both : length (code_at dict x ++ encode dict input)
            ≡ length n.code + length (encode dict input) =
          length-append (code_at dict x) (encode dict input)
          ∙ ap (λ l. length l + length (encode dict input)) e in
        let w =
          put_code-Wrote n.code b bs k (is_dict.code_bits x n g) v (omega (arith, le, both)) in
        let u =
          put_bytes-Wrote input w.b' w.bs' w.k' h.1 w.valid (omega (arith, w.count, le, both)) in
        let rest = put_bytes room (entries_of dict) input (output_at w.b' w.bs' w.k') in
        let t : Wrote output_at b bs k (code_at dict x ++ encode dict input) rest =
          subst (λ l. Wrote output_at b bs k (l ++ encode dict input) rest) (sym e)
            (Wrote-trans output_at w u) in
        rw (get_elem?-entries_of dict x n g) (rw w.returns t)

-- Data that its codes do not make shorter stays as it is.
abbrev pub Compressed : List ℕ → List ℕ → List ℕ → Type 0
Compressed bits input result =
    ((length result < length input) × Fills bits result)
    ⊎ ((length input ≤ (length bits + 7) / 8) × (result ≡ input))

-- Over the map of a dictionary, `compress_optimized` of one byte or more, whose codes have 64 bits per
-- byte at most in all, does not fault. Its result is the codes of the data in as few bytes as hold
-- them, filled up with zeros, if those are fewer bytes than the data has, and otherwise the data as it
-- is.
pub compress_optimized-Compressed :
    (dict : Dict) (m : CompressionMap) (input : List ℕ)
    → IsDict dict
    → IsMapOf dict m
    → All IsByte input
    → input ≢ []
    → length (encode dict input) ≤ 64 * length input
    → (result : List ℕ) × (compress_optimized m input ≡ ok result)
      × Compressed (encode dict input) input result
unfolding compress_optimized backwards
compress_optimized-Compressed dict m [] d i h ne le = absurd (ne refl)
compress_optimized-Compressed dict m (x ∷ xs) d i h ne le =
    let input = x ∷ xs in
    let bits = encode dict input in
    let v : IsValid 0 [] 7 = record {
      index = omega arith;
      byte = omega arith;
      bytes = tt;
      zeros = refl;
    } in
    let w = put_bytes-Wrote (length input * 8) dict d input 0 [] 7 h v (omega (arith, le)) in
    let n : 8 * length w.bs' + (7 - w.k') ≡ length bits = omega (arith, w.count) in
    let f = finish-Fills w.b' w.bs' w.k' bits w.valid (w.appended ∙ append-nil (reverse bits)) n in
    rw i.table (
      rw w.returns (
        rw n (elim (Bool-cases (ltb ((length bits + 7) / 8) (length input))) [
          | inl e ↦ (
            take ((length bits + 7) / 8) (reverse (w.b' ∷ w.bs')),
            rw e refl,
            inl (ground (arith, f.size), f),
          )
          | inr e ↦ (input, rw e refl, inr (ground arith, refl))
        ])))
