-- ===== src/Codec/Filling/Marked.antt =====
-- The byte in work filled up with bits that hold their own number, as `compress_optimized` leaves it.
use mathlib.Core.List.{reverse-append, reverse-reverse}
use multiplexing_server.Base.{
  ℕ, zero, suc, ◌+◌, ◌-◌, ◌*◌, ◌/◌, ◌%◌, ◌^◌, bit_or, ◌<◌, ◌≡◌, refl, ap, ap₂, sym, ◌∙◌, List, ◌∷◌,
  ◌++◌, reverse, append_assoc, append-nil, length, All, All-reverse, arith,
}
use multiplexing_server.Codec.Bits.{
  count_lem, bits_from, low_bits, backwards, unpack, reverse-backwards,
}
use multiplexing_server.Codec.Dict.{IsByte}
use multiplexing_server.Codec.Compress.Written.{partial}
use multiplexing_server.Codec.Filling.{IsValid}

count_below :
    (k b : ℕ)
    → k < 8
    → b < 256
    → b % 2 ^ suc k ≡ 0
    → low_bits 8 (b + suc k) ≡ low_bits (suc k) (suc k) ++ low_bits (8 - suc k) (b / 2 ^ suc k)
count_below zero b hk hb z = ground arith
count_below (suc zero) b hk hb z = ground arith
count_below (suc (suc zero)) b hk hb z = ground arith
count_below (suc (suc (suc zero))) b hk hb z = ground arith
count_below (suc (suc (suc (suc zero)))) b hk hb z = ground arith
count_below (suc (suc (suc (suc (suc zero))))) b hk hb z = ground arith
count_below (suc (suc (suc (suc (suc (suc zero)))))) b hk hb z = ground arith
count_below (suc (suc (suc (suc (suc (suc (suc zero))))))) b hk hb z = ground arith
count_below (suc (suc (suc (suc (suc (suc (suc (suc k)))))))) b hk hb z = absurd (omega arith)

reverse-low_bits : (k : ℕ) → k < 8 → reverse (low_bits (suc k) (suc k)) ≡ bits_from (suc k) (suc k)
reverse-low_bits zero hk = refl
reverse-low_bits (suc zero) hk = refl
reverse-low_bits (suc (suc zero)) hk = refl
reverse-low_bits (suc (suc (suc zero))) hk = refl
reverse-low_bits (suc (suc (suc (suc zero)))) hk = refl
reverse-low_bits (suc (suc (suc (suc (suc zero))))) hk = refl
reverse-low_bits (suc (suc (suc (suc (suc (suc zero)))))) hk = refl
reverse-low_bits (suc (suc (suc (suc (suc (suc (suc zero))))))) hk = refl
reverse-low_bits (suc (suc (suc (suc (suc (suc (suc (suc k)))))))) hk = absurd (omega arith)

count_byte : (k b : ℕ) → k < 8 → b < 256 → b % 2 ^ suc k ≡ 0 → b + suc k < 256
count_byte zero b hk hb z = omega arith
count_byte (suc zero) b hk hb z = omega arith
count_byte (suc (suc zero)) b hk hb z = omega arith
count_byte (suc (suc (suc zero))) b hk hb z = omega arith
count_byte (suc (suc (suc (suc zero)))) b hk hb z = omega arith
count_byte (suc (suc (suc (suc (suc zero))))) b hk hb z = omega arith
count_byte (suc (suc (suc (suc (suc (suc zero)))))) b hk hb z = omega arith
count_byte (suc (suc (suc (suc (suc (suc (suc zero))))))) b hk hb z = omega arith
count_byte (suc (suc (suc (suc (suc (suc (suc (suc k)))))))) b hk hb z = absurd (omega arith)

-- A payload with these bits, and behind them as many bits as fill its last byte, which hold their own
-- number.
pub record Marked (bits result : List ℕ) : Type 0 where
  pub fill : ℕ
  pub fill_lt : fill < 8
  pub bytes : All IsByte result
  pub unpacks : unpack result ≡ bits ++ bits_from fill fill
  pub whole : (length bits + fill) % 8 ≡ 0

pub count-Marked :
    (b : ℕ) (bs : List ℕ) (k : ℕ) (bits : List ℕ)
    → IsValid b bs k
    → k < 7
    → partial (suc k) (b ∷ bs) ≡ reverse bits
    → 8 * length bs + (7 - k) ≡ length bits
    → Marked bits (reverse (bit_or b (suc k) ∷ bs))
unfolding backwards
count-Marked b bs k bits v low e n =
    let b' = bit_or b (suc k) in
    let sum : b' ≡ b + suc k = count_lem b k v.byte v.index v.zeros in
    record {
      fill = suc k;
      fill_lt = omega arith;
      bytes =
          All-reverse IsByte (b' ∷ bs) (rw sum (count_byte k b v.index v.byte v.zeros), v.bytes);
      unpacks =
          sym (reverse-backwards (b' ∷ bs))
          ∙ ap (λ x. reverse (low_bits 8 x ++ backwards bs)) sum
          ∙ ap (λ l. reverse (l ++ backwards bs)) (count_below k b v.index v.byte v.zeros)
          ∙ ap reverse (
              append_assoc (low_bits (suc k) (suc k)) (low_bits (8 - suc k) (b / 2 ^ suc k))
                (backwards bs)
              ∙ ap (λ l. low_bits (suc k) (suc k) ++ l) e)
          ∙ reverse-append (low_bits (suc k) (suc k)) (reverse bits)
          ∙ ap₂ ◌++◌ (reverse-reverse bits) (reverse-low_bits k v.index);
      whole = omega (arith, n, low);
    }

-- With no bit in the byte in work.
pub full-Marked :
    (b : ℕ) (bs : List ℕ) (k : ℕ) (bits : List ℕ)
    → IsValid b bs k
    → k ≡ 7
    → partial (suc k) (b ∷ bs) ≡ reverse bits
    → 8 * length bs + (7 - k) ≡ length bits
    → Marked bits (reverse bs)
full-Marked b bs k bits v seven e n =
    let back : partial (suc k) (b ∷ bs) ≡ backwards bs = rw seven refl in
    record {
      fill = 0;
      fill_lt = omega arith;
      bytes = All-reverse IsByte bs v.bytes;
      unpacks =
          sym (reverse-backwards bs)
          ∙ ap reverse (sym back ∙ e)
          ∙ reverse-reverse bits
          ∙ sym (append-nil bits);
      whole = omega (arith, n, seven);
    }
