-- ===== src/Codec/Bits.antt =====
-- The bits of a byte, as compression.c reads and writes them, and their arithmetic.
use multiplexing_server.Base.{
  ℕ, zero, suc, ◌+◌, ◌-◌, ◌*◌, ◌/◌, ◌%◌, ◌^◌, ◌<◌, bit_and, bit_or, ◌≡◌, refl, ap, ap₂, sym, ◌∙◌,
  Bool, true, ◌&&◌, ◌||◌, not, List, [], ◌∷◌, ◌++◌, reverse, append-nil, arith, ltb, ltb→lt, ◌==◌,
  ==_iff, all_below, all_below_sound, length,
}
use mathlib.Core.List.{reverse-append, reverse-cons}

-- `(b & (1 << k)) >> k`
unfoldable pub get_bit : ℕ → ℕ → ℕ
get_bit b k = bit_and b (2 ^ k) / 2 ^ k

-- `b |= (1 << k)` on an unsigned char
unfoldable pub set_bit : ℕ → ℕ → ℕ
set_bit b k = bit_or b (2 ^ k) % 256

-- `b &= ~(1 << k)` on an unsigned char: `~(1 << k)` has the low byte `255 - (1 << k)`
unfoldable pub clear_bit : ℕ → ℕ → ℕ
clear_bit b k = bit_and b (255 - 2 ^ k)

bytes_and_bits : (ℕ → ℕ → Bool) → Bool
unfolding all_below
bytes_and_bits p = all_below 8 (λ k. all_below 256 (λ b. p b k))

bytes_and_bits_sound :
    (p : ℕ → ℕ → Bool) (b k : ℕ) → bytes_and_bits p ≡ true → b < 256 → k < 8 → p b k ≡ true
unfolding bytes_and_bits
bytes_and_bits_sound p b k h hb hk =
    all_below_sound 256 (λ b. p b k) b (all_below_sound 8 (λ k. all_below 256 (λ b. p b k)) k h hk)
      hb

get_bit_table : bytes_and_bits (λ b k. get_bit b k == b / 2 ^ k % 2) ≡ true
unfolding bytes_and_bits get_bit
get_bit_table = refl

set_bit_table :
    bytes_and_bits
      (λ b k. (set_bit b k / 2 ^ k == 2 * (b / 2 ^ suc k) + 1) && ltb (set_bit b k) 256)
    ≡ true
unfolding bytes_and_bits set_bit
set_bit_table = refl

clear_bit_table :
    bytes_and_bits
      (λ b k. (clear_bit b k / 2 ^ k == 2 * (b / 2 ^ suc k)) && ltb (clear_bit b k) 256)
    ≡ true
unfolding bytes_and_bits clear_bit
clear_bit_table = refl

pub get_bit_lem : (b k : ℕ) → b < 256 → k < 8 → get_bit b k ≡ b / 2 ^ k % 2
get_bit_lem b k hb hk = (==_iff _ _).0 (bytes_and_bits_sound _ b k get_bit_table hb hk)

and_parts : (p q : Bool) → (p && q) ≡ true → (p ≡ true) × (q ≡ true)
and_parts p q h = ground arith

pub set_bit_lem :
    (b k : ℕ)
    → b < 256
    → k < 8
    → (set_bit b k / 2 ^ k ≡ 2 * (b / 2 ^ suc k) + 1) × (set_bit b k < 256)
set_bit_lem b k hb hk =
    let t = and_parts _ _ (bytes_and_bits_sound _ b k set_bit_table hb hk) in
    ((==_iff _ _).0 t.0, ltb→lt _ _ t.1)

pub clear_bit_lem :
    (b k : ℕ)
    → b < 256
    → k < 8
    → (clear_bit b k / 2 ^ k ≡ 2 * (b / 2 ^ suc k)) × (clear_bit b k < 256)
clear_bit_lem b k hb hk =
    let t = and_parts _ _ (bytes_and_bits_sound _ b k clear_bit_table hb hk) in
    ((==_iff _ _).0 t.0, ltb→lt _ _ t.1)

-- A byte whose bits up to `k` are zeros, left as it is or with bit `k` set.
zeros_table :
    bytes_and_bits (λ b k.
      not (b % 2 ^ suc k == 0)
      || ((b / 2 ^ k == 2 * (b / 2 ^ suc k)) && (b % 2 ^ k == 0) && (set_bit b k % 2 ^ k == 0)))
    ≡ true
unfolding bytes_and_bits set_bit
zeros_table = refl

zeros_parts :
    (p q r s : Bool)
    → (not p || (q && r && s)) ≡ true
    → p ≡ true
    → (q ≡ true) × (r ≡ true) × (s ≡ true)
zeros_parts p q r s h e = ground arith

pub zeros_lem :
    (b k : ℕ)
    → b < 256
    → k < 8
    → b % 2 ^ suc k ≡ 0
    → (b / 2 ^ k ≡ 2 * (b / 2 ^ suc k)) × (b % 2 ^ k ≡ 0) × (set_bit b k % 2 ^ k ≡ 0)
zeros_lem b k hb hk z =
    let t =
      zeros_parts _ _ _ _ (bytes_and_bits_sound _ b k zeros_table hb hk)
        ((==_iff (b % 2 ^ suc k) 0).1 z) in
    ((==_iff _ _).0 t.0, (==_iff _ _).0 t.1, (==_iff _ _).0 t.2)

count_table :
    bytes_and_bits (λ b k. not (b % 2 ^ suc k == 0) || (bit_or b (suc k) == b + suc k)) ≡ true
unfolding bytes_and_bits
count_table = refl

-- A number below 8 that is put into as many zeros.
pub count_lem : (b k : ℕ) → b < 256 → k < 8 → b % 2 ^ suc k ≡ 0 → bit_or b (suc k) ≡ b + suc k
count_lem b k hb hk z =
    let t = bytes_and_bits_sound _ b k count_table hb hk in
    (==_iff _ _).0 (
      implied (b % 2 ^ suc k == 0) (bit_or b (suc k) == b + suc k) t
        ((==_iff (b % 2 ^ suc k) 0).1 z))
  where
    implied : (p q : Bool) → (not p || q) ≡ true → p ≡ true → q ≡ true
    implied p q h e = ground arith

-- The `j` low bits of a byte, the highest first.
abbrev pub bits_from : ℕ → ℕ → List ℕ
bits_from zero b = []
bits_from (suc j) b = b / 2 ^ j % 2 ∷ bits_from j b

-- The bits of a sequence of bytes, in the order in which both sides go through them.
unfoldable pub unpack : List ℕ → List ℕ
unpack [] = []
unpack (b ∷ bs) = bits_from 8 b ++ unpack bs

-- The same from the low end: the bits of a sequence of bytes, both backwards.
abbrev pub low_bits : ℕ → ℕ → List ℕ
low_bits zero b = []
low_bits (suc n) b = b % 2 ∷ low_bits n (b / 2)

unfoldable pub backwards : List ℕ → List ℕ
backwards [] = []
backwards (b ∷ bs) = low_bits 8 b ++ backwards bs

pub length-unpack : (bs : List ℕ) → length (unpack bs) ≡ 8 * length bs
unfolding unpack
length-unpack [] = omega arith
length-unpack (b ∷ bs) = omega (arith, length-unpack bs)

pub unpack-append : (xs ys : List ℕ) → unpack (xs ++ ys) ≡ unpack xs ++ unpack ys
unfolding unpack
unpack-append [] ys = refl
unpack-append (x ∷ xs) ys = ap (◌++◌ (bits_from 8 x)) (unpack-append xs ys)

reverse-low_bits : (b : ℕ) → reverse (low_bits 8 b) ≡ bits_from 8 b
reverse-low_bits b = ground arith

pub reverse-backwards : (bs : List ℕ) → reverse (backwards bs) ≡ unpack (reverse bs)
unfolding backwards unpack
reverse-backwards [] = refl
reverse-backwards (b ∷ bs) =
    reverse-append (low_bits 8 b) (backwards bs)
    ∙ ap₂ ◌++◌ (reverse-backwards bs) (reverse-low_bits b ∙ sym (append-nil (bits_from 8 b)))
    ∙ sym (unpack-append (reverse bs) (b ∷ []))
    ∙ ap unpack (sym (reverse-cons b bs))
