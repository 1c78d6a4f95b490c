-- ===== src/Codec/Compress/Padding.antt =====
-- The padding of `compress`.
use multiplexing_server.Base.{
  ℕ, zero, suc, ◌%◌, ◌≤◌, ◌<◌, ◌≡◌, ◌≢◌, refl, ap, sym, ◌∙◌, ◌⊎◌, inl, inr, List, [], ◌∷◌, ◌++◌,
  arith, ◌==◌, ==_iff, Bool-cases, if◌then◌else◌, All, replicate, replicate-shift,
}
use multiplexing_server.Codec.Bits.{clear_bit, backwards}
use multiplexing_server.Codec.Dict.{IsByte}
use multiplexing_server.Codec.Compress.{write_bit, pad}
use multiplexing_server.Codec.Compress.Written.{
  partial, partial_zero, partial-write_bit, write_bit-IsByte,
}

-- The padding loop writes a zero for each bit that is left, and leaves full bytes.
pad_lem :
    (k b : ℕ) (bs : List ℕ)
    → k ≤ 8
    → b < 256
    → All IsByte bs
    → (backwards (pad k (b ∷ bs)) ≡ replicate k 0 ++ partial k (b ∷ bs))
      × All IsByte (pad k (b ∷ bs))
unfolding pad write_bit
pad_lem zero b bs h hb hbs = (sym (partial_zero b bs), (hb, hbs))
pad_lem (suc k) b bs h hb hbs =
    let w = write_bit-IsByte 0 k b bs (omega arith) hb (omega arith) hbs in
    let rest = pad_lem k (clear_bit b k) bs (omega arith) w.0.0 hbs in
    (
      rest.0
          ∙ ap (◌++◌ (replicate k 0)) (partial-write_bit 0 k b bs (omega arith) hb (omega arith))
          ∙ replicate-shift k 0 (partial (suc k) (b ∷ bs)),
      rest.1,
    )

-- What is left of `o` when the loops are done: whole bytes, backwards, and the zeros written.
abbrev pub padded : ℕ → List ℕ → List ℕ
padded c bytes = if c == 8 then bytes else pad c bytes

pub padded_lem :
    (c : ℕ) (bytes : List ℕ)
    → 1 ≤ c
    → c ≤ 8
    → (c ≡ 8) ⊎ (bytes ≢ [])
    → All IsByte bytes
    → (backwards (padded c bytes)
        ≡ replicate (c % 8) 0 ++ (if c == 8 then backwards bytes else partial c bytes))
      × All IsByte (padded c bytes)
padded_lem c bytes l h w hb = elim (Bool-cases (c == 8)) [
  | inl e ↦ let e8 : c ≡ 8 = (==_iff c 8).0 e in rw e8 (refl, hb)
  | inr e ↦ rw e (below c bytes (ground arith) (ground arith) hb)
]
  where
    below :
        (c : ℕ) (bytes : List ℕ)
        → c < 8
        → bytes ≢ []
        → All IsByte bytes
        → (backwards (pad c bytes) ≡ replicate (c % 8) 0 ++ partial c bytes)
          × All IsByte (pad c bytes)
    below c [] l w hb = absurd (w refl)
    below c (b ∷ bs) l w hb =
        let e : c % 8 ≡ c = omega arith in rw e (pad_lem c b bs (omega arith) hb.0 hb.1)
