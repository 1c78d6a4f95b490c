-- ===== src/Optimized/Codec/Writing.antt =====
-- `compress_optimized` of compression_optimized.c: the bits of its result, and how it differs from
-- `compress`.
use native.Mathlib.Numerals.{add-one}
use multiplexing_server.Base.{
  ℕ, zero, suc, ◌+◌, ◌-◌, ◌*◌, ◌%◌, ◌^◌, ◌<◌, ◌≡◌, ◌≢◌, refl, ap, ap₂, subst, sym, ◌∙◌, inl, inr,
  Bool-cases, List, [], ◌∷◌, ◌++◌, reverse, append-nil, ok, ◌>>=◌, ok_inj, get_elem?-of_lt, drop,
  lt→ltb, drop_all, drop-get_elem?, length, length-append, replicate, length-replicate, ◌==◌,
  ==_of_ne, if◌then◌else◌, All, All-get_elem?, arith,
}
use multiplexing_server.Codec.Bits.{set_bit, bits_from, backwards, unpack, length-unpack}
use multiplexing_server.Codec.Dict.{Dict, IsBit, IsByte, IsDict}
use multiplexing_server.Codec.Compress.{compress}
use multiplexing_server.Codec.Compress.Laws.{encode, code_at, code_at_lem, compress-Packs}
use multiplexing_server.Codec.Compress.Written.{partial}
use multiplexing_server.Codec.Filling.{
  IsValid, put_byte, next_at, Wrote, Wrote-nil, Wrote-trans, Wrote-bit,
}
use multiplexing_server.Codec.Filling.Marked.{Marked, count-Marked, full-Marked}
use multiplexing_server.Optimized.Codec.{
  Output, put_bit, put_code, put_bytes, finish, compress_optimized,
}

abbrev output_at : ℕ → List ℕ → ℕ → Output
output_at b bs k = record { full = bs; current_byte = b; total_count = 8 * length bs + (7 - k) }

put_byte_eq : (bit k b : ℕ) → IsBit bit → (if bit == 1 then set_bit b k else b) ≡ put_byte bit k b
put_byte_eq zero k b h = refl
put_byte_eq (suc zero) k b h = refl
put_byte_eq (suc (suc bit)) k b h = absurd (omega arith)

put_bit-next :
    (bit b : ℕ) (bs : List ℕ) (k : ℕ)
    → IsBit bit
    → k < 8
    → put_bit bit (output_at b bs k) ≡ next_at output_at bit b bs k
unfolding put_bit
put_bit-next bit b bs zero h hk =
    let at : 7 - (8 * length bs + 7) % 8 ≡ 0 = omega arith in
    let full : (8 * length bs + 7 + 1) % 8 ≡ 0 = omega arith in
    rw at (
      rw full (
        rw (put_byte_eq bit 0 b h) (
          ap (λ n. record { full = put_byte bit 0 b ∷ bs; current_byte = 0; total_count = n })
            (omega arith))))
put_bit-next bit b bs (suc k) h hk =
    let at : 7 - (8 * length bs + (7 - suc k)) % 8 ≡ suc k = omega (arith, hk) in
    let part : (8 * length bs + (7 - suc k) + 1) % 8 ≢ 0 = λ z. omega (arith, hk, z) in
    rw at (
      rw (==_of_ne _ 0 part) (
        rw (put_byte_eq bit (suc k) b h) (
          ap (λ n. record { full = bs; current_byte = put_byte bit (suc k) b; total_count = n })
            (omega (arith, hk)))))

put_code-Wrote :
    (code : List ℕ) (n j b : ℕ) (bs : List ℕ) (k : ℕ)
    → All IsBit code
    → j + n ≡ length code
    → IsValid b bs k
    → Wrote output_at b bs k (drop j code) (put_code code n j (output_at b bs k))
unfolding put_code
put_code-Wrote code zero j b bs k h e v =
    rw (drop_all j code (omega arith)) (Wrote-nil output_at b bs k v)
put_code-Wrote code (suc n) j b bs k h e v =
    let (bit, g) = get_elem?-of_lt code j (omega arith) in
    let hb = All-get_elem? IsBit code j h g in
    let w =
      Wrote-bit output_at bit b bs k (ok (put_bit bit (output_at b bs k))) hb v
        (ap ok (put_bit-next bit b bs k hb v.index)) in
    let u = put_code-Wrote code n (suc j) w.b' w.bs' w.k' h (omega arith) w.valid in
    let same : put_bit bit (output_at b bs k) ≡ output_at w.b' w.bs' w.k' = ok_inj w.returns in
    rw (g, add-one, drop-get_elem? code j g) (rw same (Wrote-trans output_at w u))

put_bytes-Wrote :
    (dict : Dict) (input : List ℕ) (b : ℕ) (bs : List ℕ) (k : ℕ)
    → IsDict dict
    → All IsByte input
    → IsValid b bs k
    → Wrote output_at b bs k (encode dict input) (put_bytes dict input (output_at b bs k))
unfolding put_bytes encode
put_bytes-Wrote dict [] b bs k d h v = Wrote-nil output_at b bs k v
put_bytes-Wrote dict (x ∷ input) b bs k d h v =
    let (n, g) = get_elem?-of_lt dict x (rw d.size h.0) in
    let e = code_at_lem dict x n g in
    let w =
      put_code-Wrote n.code n.code_l 0 b bs k (d.code_bits x n g)
        (omega (arith, d.code_length x n g)) v in
    let u = put_bytes-Wrote dict input w.b' w.bs' w.k' d h.1 w.valid in
    let rest = put_bytes dict input (output_at w.b' w.bs' w.k') in
    let t : Wrote output_at b bs k (code_at dict x ++ encode dict input) rest =
      subst (λ l. Wrote output_at b bs k (l ++ encode dict input) rest) (sym e)
        (Wrote-trans output_at w u) in
    rw g (rw w.returns t)

finish-Marked :
    (b : ℕ) (bs : List ℕ) (k : ℕ) (bits : List ℕ)
    → IsValid b bs k
    → partial (suc k) (b ∷ bs) ≡ reverse bits
    → 8 * length bs + (7 - k) ≡ length bits
    → Marked bits (finish (output_at b bs k))
unfolding finish
finish-Marked b bs k bits v e n = elim (Bool-cases (k == 7)) [
  | inl f ↦
      let seven : k ≡ 7 = ground arith in
      let whole : (8 * length bs + (7 - k)) % 8 ≡ 0 = omega (arith, seven) in
      rw whole (full-Marked b bs k bits v seven e n)
  | inr f ↦
      let low : k < 7 = ground (arith, v.index) in
      let part : (8 * length bs + (7 - k)) % 8 ≢ 0 = λ z. omega (arith, low, z) in
      let left : (8 - (8 * length bs + (7 - k)) % 8) % 8 ≡ suc k = omega (arith, low) in
      rw (==_of_ne _ 0 part) (rw left (count-Marked b bs k bits v low e n))
]

-- With a dictionary of 256 codes, `compress_optimized` of one byte or more, with fewer than 2^31 bits
-- in all codes of the data, does not fault. Its result holds the codes of the data, and in the bits
-- that are left of its last byte their number.
pub compress_optimized-Marked :
    (dict : Dict) (input : List ℕ)
    → IsDict dict
    → All IsByte input
    → input ≢ []
    → length (encode dict input) < 2 ^ 31
    → (result : List ℕ) × (compress_optimized dict input ≡ ok result)
      × Marked (encode dict input) result
unfolding compress_optimized backwards
compress_optimized-Marked dict [] d h ne lt = absurd (ne refl)
compress_optimized-Marked dict (x ∷ xs) d h ne lt =
    let bits = encode dict (x ∷ xs) in
    let v : IsValid 0 [] 7 = record {
      index = omega arith;
      byte = omega arith;
      bytes = tt;
      zeros = refl;
    } in
    let w = put_bytes-Wrote dict (x ∷ xs) 0 [] 7 d h v in
    (
      finish (output_at w.b' w.bs' w.k'),
      rw w.returns
          (rw (lt→ltb (8 * length w.bs' + (7 - w.k')) (2 ^ 31) (omega (arith, w.count, lt))) refl),
      finish-Marked w.b' w.bs' w.k' bits w.valid (w.appended ∙ append-nil (reverse bits))
          (omega (arith, w.count)),
    )

bits_inj :
    (i j : ℕ) (xs ys : List ℕ)
    → i < 256
    → j < 256
    → bits_from 8 i ++ xs ≡ bits_from 8 j ++ ys
    → (i ≡ j) × (xs ≡ ys)
bits_inj i j xs ys hi hj e = (ground arith, ground arith)

-- Bytes with the same bits.
unpack_inj : (xs ys : List ℕ) → All IsByte xs → All IsByte ys → unpack xs ≡ unpack ys → xs ≡ ys
unfolding unpack
unpack_inj [] [] hx hy e = refl
unpack_inj [] (y ∷ ys) hx hy e = absurd (cc)
unpack_inj (x ∷ xs) [] hx hy e = absurd (cc)
unpack_inj (x ∷ xs) (y ∷ ys) hx hy e =
    let (i, t) = bits_inj x y (unpack xs) (unpack ys) hx.0 hy.0 e in
    ap₂ ◌∷◌ i (unpack_inj xs ys hx.1 hy.1 t)

-- Of data of one byte or more, fewer than 2^31, whose codes fill whole bytes and have fewer than 2^31
-- bits in all, with a dictionary of 256 codes, `compress` makes what `compress_optimized` makes, and
-- one byte more, a zero behind it.
pub compress_optimized-compress :
    (junk : ℕ → ℕ) (dict : Dict) (input : List ℕ)
    → ((i : ℕ) → junk i < 256)
    → IsDict dict
    → All IsByte input
    → input ≢ []
    → length input < 2 ^ 31
    → length (encode dict input) < 2 ^ 31
    → length (encode dict input) % 8 ≡ 0
    → compress junk dict input ≡ (compress_optimized dict input >>= λ result. ok (result ++ 0 ∷ []))
compress_optimized-compress junk dict input hj d h ne few lt z =
    let (result, e, p) = compress-Packs junk dict input hj d h few lt in
    let (result', e', q) = compress_optimized-Marked dict input d h ne lt in
    let size : length (encode dict input) + p.fill ≡ 8 * length p.body = omega (
      arith,
      ap length p.body_bits,
      length-unpack p.body,
      length-append (encode dict input) (replicate {A = ℕ} p.fill 0),
      length-replicate {A = ℕ} p.fill 0,
    ) in
    let none : p.fill ≡ 0 = omega (arith, size, z, p.fill_lt) in
    let none' : q.fill ≡ 0 = omega (arith, q.whole, z, q.fill_lt) in
    let same : p.body ≡ result' = unpack_inj p.body result' p.byte_sized q.bytes (
      p.body_bits
      ∙ ap (λ n. encode dict input ++ replicate n 0) none
      ∙ sym (q.unpacks ∙ ap (λ n. encode dict input ++ bits_from n n) none')) in
    rw (e, e') (ap ok (p.is_result ∙ ap₂ (λ l n. l ++ n ∷ []) same none))
