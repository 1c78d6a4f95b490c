-- ===== src/Codec/Compress/Written.antt =====
-- The bits that an `Output` of `compress` holds, and what one round of each loop adds to them.
use multiplexing_server.Base.{
  ℕ, zero, suc, ◌+◌, ◌-◌, ◌*◌, ◌/◌, ◌%◌, ◌^◌, ◌≤◌, ◌<◌, ◌≡◌, ◌≢◌, refl, ap, ap₂, sym, ◌∙◌, ◌⊎◌, inl,
  inr, Bool-cases, List, [], ◌∷◌, ◌++◌, arith, ◌==◌, if◌then◌else◌, length, All, ==_iff,
}
use multiplexing_server.Codec.Bits.{
  set_bit, clear_bit, set_bit_lem, clear_bit_lem, low_bits, backwards,
}
use multiplexing_server.Codec.Dict.{IsByte}
use multiplexing_server.Codec.Compress.{Output, write_bit, grow, put_bit}

-- The bits of a byte in work from bit `c` up, and those of the bytes before it, the latest first.
abbrev pub partial : ℕ → List ℕ → List ℕ
partial c [] = []
partial c (b ∷ bs) = low_bits (8 - c) (b / 2 ^ c) ++ backwards bs

abbrev pub written : Output → List ℕ
written o = if o.curr_bit == 8 then backwards o.bytes else partial o.curr_bit o.bytes

pub record IsValid (o : Output) : Type 0 where
  pub low : 1 ≤ o.curr_bit
  pub high : o.curr_bit ≤ 8
  pub in_work : (o.curr_bit ≡ 8) ⊎ (o.bytes ≢ [])
  pub byte_sized : All IsByte o.bytes
  pub counted : (o.total_count + o.curr_bit) % 8 ≡ 0

pub low_bits-suc :
    (n m x y bit : ℕ) → n ≡ suc m → bit < 2 → x ≡ 2 * y + bit → low_bits n x ≡ bit ∷ low_bits m y
low_bits-suc n m x y bit e h ex = rw (e, ex) (ap₂ ◌∷◌ (omega arith) (ap (low_bits m) (omega arith)))

-- The byte that a write of `bit` at `k` leaves.
written_byte : ℕ → ℕ → ℕ → ℕ
written_byte bit k b = if bit == 0 then clear_bit b k else set_bit b k

written_byte_lem :
    (bit k b : ℕ)
    → bit < 2
    → b < 256
    → k < 8
    → (written_byte bit k b / 2 ^ k ≡ 2 * (b / 2 ^ suc k) + bit) × (written_byte bit k b < 256)
unfolding written_byte
written_byte_lem bit k b h hb hk = ground (arith, set_bit_lem b k hb hk, clear_bit_lem b k hb hk)

pub partial-write_bit :
    (bit k b : ℕ) (bs : List ℕ)
    → bit < 2
    → b < 256
    → k < 8
    → partial k (write_bit bit k (b ∷ bs)) ≡ bit ∷ partial (suc k) (b ∷ bs)
unfolding write_bit written_byte
partial-write_bit bit k b bs h hb hk =
    ap (λ l. l ++ backwards bs)
      (low_bits-suc (8 - k) (8 - suc k) (written_byte bit k b / 2 ^ k) (b / 2 ^ suc k) bit
        (omega arith) h (written_byte_lem bit k b h hb hk).0)

pub partial_zero : (b : ℕ) (bs : List ℕ) → partial 0 (b ∷ bs) ≡ backwards (b ∷ bs)
unfolding backwards
partial_zero b bs = let e : b / 1 ≡ b = omega arith in ap (λ x. low_bits 8 x ++ backwards bs) e

-- With a byte in work at bit `suc k`, a write leaves one with a byte in work at bit `k`.
pub write_bit-IsByte :
    (bit k b : ℕ) (bs : List ℕ)
    → bit < 2
    → b < 256
    → k < 8
    → All IsByte bs
    → All IsByte (write_bit bit k (b ∷ bs)) × (write_bit bit k (b ∷ bs) ≢ [])
unfolding write_bit written_byte
write_bit-IsByte bit k b bs h hb hk hbs = (((written_byte_lem bit k b h hb hk).1, hbs), λ e. cc)

-- The bit position after a write at `k`: a byte that is full is no longer in work.
abbrev next_bit : ℕ → ℕ
next_bit k = if k == 0 then 8 else k

written_next :
    (k : ℕ) (bytes : List ℕ)
    → k < 8
    → bytes ≢ []
    → (if next_bit k == 8 then backwards bytes else partial (next_bit k) bytes) ≡ partial k bytes
written_next k [] h w = absurd (w refl)
written_next zero (b ∷ bs) h w = sym (partial_zero b bs)
written_next (suc k) (b ∷ bs) h w = ground arith

-- What the rest of the round finds: a byte in work at bit `c`.
record InWork (c : ℕ) (bits grown : List ℕ) : Type 0 where
  head : ℕ
  rest : List ℕ
  is_cons : grown ≡ head ∷ rest
  head_byte : head < 256
  rest_bytes : All IsByte rest
  bits_kept : partial c (head ∷ rest) ≡ bits

module _ (junk : ℕ → ℕ) (junk_byte : (i : ℕ) → junk i < 256) where
  grow-InWork :
      (c : ℕ) (bytes : List ℕ)
      → c ≤ 8
      → (c ≡ 8) ⊎ (bytes ≢ [])
      → All IsByte bytes
      → InWork c (if c == 8 then backwards bytes else partial c bytes) (grow junk c bytes)
  unfolding grow
  grow-InWork c [] h w hb = elim (Bool-cases (c == 8)) [
    | inl e ↦
        let e8 : c ≡ 8 = (==_iff c 8).0 e in
        rw e8 (record {
          head = junk 0;
          rest = [];
          is_cons = refl;
          head_byte = junk_byte 0;
          rest_bytes = tt;
          bits_kept = refl;
        })
    | inr e ↦ absurd (ground arith)
  ]
  grow-InWork c (b ∷ bs) h w hb = elim (Bool-cases (c == 8)) [
    | inl e ↦
        let e8 : c ≡ 8 = (==_iff c 8).0 e in
        rw e8 (record {
          head = junk (length (b ∷ bs));
          rest = b ∷ bs;
          is_cons = refl;
          head_byte = junk_byte _;
          rest_bytes = hb;
          bits_kept = refl;
        })
    | inr e ↦ rw e (record {
      head = b;
      rest = bs;
      is_cons = refl;
      head_byte = hb.0;
      rest_bytes = hb.1;
      bits_kept = refl;
    })
  ]

  pub put_bit-IsValid : (bit : ℕ) (o : Output) → bit < 2 → IsValid o → IsValid (put_bit junk bit o)
  unfolding put_bit
  put_bit-IsValid bit o h v =
      let w = grow-InWork o.curr_bit o.bytes v.high v.in_work v.byte_sized in
      let n =
        write_bit-IsByte bit (o.curr_bit - 1) w.head w.rest h w.head_byte (omega arith)
          w.rest_bytes in
      rw w.is_cons (record {
        low = ground arith;
        high = ground arith;
        in_work = inr n.1;
        byte_sized = n.0;
        counted = ground arith;
      })

  pub put_bit-written :
      (bit : ℕ) (o : Output) → bit < 2 → IsValid o → written (put_bit junk bit o) ≡ bit ∷ written o
  unfolding put_bit
  put_bit-written bit o h v =
      let w = grow-InWork o.curr_bit o.bytes v.high v.in_work v.byte_sized in
      rw w.is_cons (
        written_next (o.curr_bit - 1) (write_bit bit (o.curr_bit - 1) (w.head ∷ w.rest))
          (omega arith)
          (write_bit-IsByte bit (o.curr_bit - 1) w.head w.rest h w.head_byte (omega arith)
            w.rest_bytes).1
        ∙ partial-write_bit bit (o.curr_bit - 1) w.head w.rest h w.head_byte (omega arith)
        ∙ ap (◌∷◌ bit)
            (let e : suc (o.curr_bit - 1) ≡ o.curr_bit = omega arith in rw e w.bits_kept))
