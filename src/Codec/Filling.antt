-- ===== src/Codec/Filling.antt =====
-- Bits that are put into bytes from the high end: a byte in work, the full bytes before it, and the
-- zeros that fill it up. Both optimised codecs write so.
pub mod Marked
use mathlib.Core.List.{reverse-append, reverse-reverse, reverse-cons}
use multiplexing_server.Base.{
  ℕ, zero, suc, ◌+◌, ◌-◌, ◌*◌, ◌/◌, ◌%◌, ◌^◌, bit_or, ◌<◌, ◌≡◌, refl, ap, ap₂, sym, ◌∙◌, inl, inr,
  Bool-cases, List, [], ◌∷◌, ◌++◌, reverse, append_assoc, append-nil, replicate, reverse-replicate,
  Outcome, ok, length, length-append, length-reverse, take, take-length-append, take_of_le, ◌==◌,
  if◌then◌else◌, All, All-reverse, arith,
}
use multiplexing_server.Codec.Bits.{
  set_bit, set_bit_lem, zeros_lem, count_lem, bits_from, low_bits, backwards, unpack,
  reverse-backwards,
}
use multiplexing_server.Codec.Dict.{IsBit, IsByte}
use multiplexing_server.Codec.Compress.Written.{partial, partial_zero, low_bits-suc}

-- The bits that are not written yet are zeros.
pub record IsValid (b : ℕ) (bs : List ℕ) (k : ℕ) : Type 0 where
  pub index : k < 8
  pub byte : b < 256
  pub bytes : All IsByte bs
  pub zeros : b % 2 ^ suc k ≡ 0

-- The byte in work when a bit has been written at `k`.
abbrev pub put_byte : ℕ → ℕ → ℕ → ℕ
put_byte bit k b = if bit == 0 then b else set_bit b k

pub record PutByte (bit k b : ℕ) : Type 0 where
  pub high : put_byte bit k b / 2 ^ k ≡ 2 * (b / 2 ^ suc k) + bit
  pub byte : put_byte bit k b < 256
  pub zeros : put_byte bit k b % 2 ^ k ≡ 0

put_byte_lem : (bit k b : ℕ) → IsBit bit → k < 8 → b < 256 → b % 2 ^ suc k ≡ 0 → PutByte bit k b
put_byte_lem zero k b h hk hb z =
    let t = zeros_lem b k hb hk z in record { high = t.0 ∙ omega arith; byte = hb; zeros = t.1 }
put_byte_lem (suc zero) k b h hk hb z =
    let t = zeros_lem b k hb hk z in
    let s = set_bit_lem b k hb hk in record { high = s.0; byte = s.1; zeros = t.2 }
put_byte_lem (suc (suc bit)) k b h hk hb z = absurd (omega arith)

partial-put_byte :
    (bit k b : ℕ) (bs : List ℕ)
    → k < 8
    → IsBit bit
    → PutByte bit k b
    → partial k (put_byte bit k b ∷ bs) ≡ bit ∷ partial (suc k) (b ∷ bs)
partial-put_byte bit k b bs hk h p =
    ap (λ l. l ++ backwards bs)
      (low_bits-suc (8 - k) (8 - suc k) (put_byte bit k b / 2 ^ k) (b / 2 ^ suc k) bit (omega arith)
        h p.high)

-- `at b bs k` is an output with the byte `b` in work at bit `k` and the full bytes `bs` before it, the
-- last first.
module _ {O : Type 0} (at : ℕ → List ℕ → ℕ → O) where
  -- The output after one bit.
  abbrev pub next_at : ℕ → ℕ → List ℕ → ℕ → O
  next_at bit b bs zero = at 0 (put_byte bit 0 b ∷ bs) 7
  next_at bit b bs (suc k) = at (put_byte bit (suc k) b) bs k

  -- `r` is an output that has `bits` behind what was written before.
  pub record Wrote (b : ℕ) (bs : List ℕ) (k : ℕ) (bits : List ℕ) (r : Outcome O) : Type 0 where
    pub b' : ℕ
    pub bs' : List ℕ
    pub k' : ℕ
    pub returns : r ≡ ok (at b' bs' k')
    pub valid : IsValid b' bs' k'
    pub appended : partial (suc k') (b' ∷ bs') ≡ reverse bits ++ partial (suc k) (b ∷ bs)
    pub count : 8 * length bs' + (7 - k') ≡ 8 * length bs + (7 - k) + length bits

  pub Wrote-nil : (b : ℕ) (bs : List ℕ) (k : ℕ) → IsValid b bs k → Wrote b bs k [] (ok (at b bs k))
  Wrote-nil b bs k v = record {
    b' = b;
    bs' = bs;
    k' = k;
    returns = refl;
    valid = v;
    appended = refl;
    count = omega arith;
  }

  pub Wrote-trans :
      {b : ℕ} {bs : List ℕ} {k : ℕ} {xs ys : List ℕ} {r r' : Outcome O} (w : Wrote b bs k xs r)
      → Wrote w.b' w.bs' w.k' ys r'
      → Wrote b bs k (xs ++ ys) r'
  Wrote-trans {b} {bs} {k} {xs} {ys} w v = record {
    b' = v.b';
    bs' = v.bs';
    k' = v.k';
    returns = v.returns;
    valid = v.valid;
    appended = rw (v.appended, w.appended, reverse-append, append_assoc) refl;
    count = omega (arith, w.count, v.count, length-append xs ys);
  }

  pub Wrote-bit :
      (bit b : ℕ) (bs : List ℕ) (k : ℕ) (r : Outcome O)
      → IsBit bit
      → IsValid b bs k
      → r ≡ ok (next_at bit b bs k)
      → Wrote b bs k (bit ∷ []) r
  unfolding backwards
  Wrote-bit bit b bs zero r h v e =
      let p = put_byte_lem bit 0 b h v.index v.byte v.zeros in
      record {
        b' = 0;
        bs' = put_byte bit 0 b ∷ bs;
        k' = 7;
        returns = e;
        valid = record {
          index = omega arith;
          byte = omega arith;
          bytes = (p.byte, v.bytes);
          zeros = refl;
        };
        appended =
            sym (partial_zero (put_byte bit 0 b) bs) ∙ partial-put_byte bit 0 b bs v.index h p;
        count = omega arith;
      }
  Wrote-bit bit b bs (suc k) r h v e =
      let p = put_byte_lem bit (suc k) b h v.index v.byte v.zeros in
      record {
        b' = put_byte bit (suc k) b;
        bs' = bs;
        k' = k;
        returns = e;
        valid = record {
          index = omega (arith, v.index);
          byte = p.byte;
          bytes = v.bytes;
          zeros = p.zeros;
        };
        appended = partial-put_byte bit (suc k) b bs v.index h p;
        count = omega (arith, v.index);
      }

-- The zeros that follow the last bit in its byte.
zeros_below :
    (k b : ℕ)
    → k < 8
    → b < 256
    → b % 2 ^ suc k ≡ 0
    → low_bits 8 b ≡ replicate (suc k) 0 ++ low_bits (8 - suc k) (b / 2 ^ suc k)
zeros_below zero b hk hb z = ground arith
zeros_below (suc zero) b hk hb z = ground arith
zeros_below (suc (suc zero)) b hk hb z = ground arith
zeros_below (suc (suc (suc zero))) b hk hb z = ground arith
zeros_below (suc (suc (suc (suc zero)))) b hk hb z = ground arith
zeros_below (suc (suc (suc (suc (suc zero))))) b hk hb z = ground arith
zeros_below (suc (suc (suc (suc (suc (suc zero)))))) b hk hb z = ground arith
zeros_below (suc (suc (suc (suc (suc (suc (suc zero))))))) b hk hb z = ground arith
zeros_below (suc (suc (suc (suc (suc (suc (suc (suc k)))))))) b hk hb z = absurd (omega arith)

-- A byte in work, with the zeros behind its last bit.
backwards-zeros :
    (b : ℕ) (bs : List ℕ) (k : ℕ)
    → IsValid b bs k
    → backwards (b ∷ bs) ≡ replicate (suc k) 0 ++ partial (suc k) (b ∷ bs)
unfolding backwards
backwards-zeros b bs k v =
    ap (λ l. l ++ backwards bs) (zeros_below k b v.index v.byte v.zeros)
    ∙ append_assoc (replicate (suc k) 0) (low_bits (8 - suc k) (b / 2 ^ suc k)) (backwards bs)

-- A payload with these bits, in as few bytes as hold them, filled up with zeros.
pub record Fills (bits result : List ℕ) : Type 0 where
  pub fill : ℕ
  pub fill_lt : fill < 8
  pub bytes : All IsByte result
  pub unpacks : unpack result ≡ bits ++ replicate fill 0
  pub size : length result ≡ (length bits + 7) / 8

pub finish-Fills :
    (b : ℕ) (bs : List ℕ) (k : ℕ) (bits : List ℕ)
    → IsValid b bs k
    → partial (suc k) (b ∷ bs) ≡ reverse bits
    → 8 * length bs + (7 - k) ≡ length bits
    → Fills bits (take ((length bits + 7) / 8) (reverse (b ∷ bs)))
unfolding backwards
finish-Fills b bs k bits v e n = elim (Bool-cases (k == 7)) [
  | inl f ↦
      let seven : k ≡ 7 = ground arith in
      let size : (length bits + 7) / 8 ≡ length (reverse bs) =
        omega (arith, n, seven, length-reverse bs) in
      let back : partial (suc k) (b ∷ bs) ≡ backwards bs = rw seven refl in
      let front : take (length (reverse bs)) (reverse (b ∷ bs)) ≡ reverse bs =
        ap (take (length (reverse bs))) (reverse-cons b bs)
        ∙ take-length-append (reverse bs) (b ∷ []) in
      rw size (
        rw front (record {
          fill = 0;
          fill_lt = omega arith;
          bytes = All-reverse IsByte bs v.bytes;
          unpacks =
              sym (reverse-backwards bs)
              ∙ ap reverse (sym back ∙ e)
              ∙ reverse-reverse bits
              ∙ sym (append-nil bits);
          size = sym size;
        }))
  | inr f ↦
      let low : k < 7 = ground (arith, v.index) in
      let size : (length bits + 7) / 8 ≡ length (reverse (b ∷ bs)) =
        omega (arith, n, low, length-reverse (b ∷ bs)) in
      let all_of = take_of_le (length (reverse (b ∷ bs))) (reverse (b ∷ bs)) (omega arith) in
      rw size (
        rw all_of (record {
          fill = suc k;
          fill_lt = omega (arith, low);
          bytes = All-reverse IsByte (b ∷ bs) (v.byte, v.bytes);
          unpacks =
              sym (reverse-backwards (b ∷ bs))
              ∙ ap reverse (backwards-zeros b bs k v ∙ ap (λ l. replicate (suc k) 0 ++ l) e)
              ∙ reverse-append (replicate (suc k) 0) (reverse bits)
              ∙ ap₂ ◌++◌ (reverse-reverse bits) (reverse-replicate (suc k) 0);
          size = sym size;
        }))
]
