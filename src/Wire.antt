-- ===== src/Wire.antt =====
-- Integers as bytes: how the host, which is little-endian, keeps them in memory, and what `bswap_32`
-- and `bswap_64` (byteswap_compat.h) make of them. `memcpy`, `read` and `send` move the bytes in
-- memory.
use mathlib.Core.List.{reverse-reverse}
use native.Mathlib.Nat.{pow-suc}
use multiplexing_server.Base.{
  ℕ, zero, suc, ◌+◌, ◌*◌, ◌/◌, ◌%◌, ◌^◌, ◌<◌, ◌≡◌, refl, ap, sym, ◌∙◌, List, [], ◌∷◌, reverse,
  arith, length, length-reverse, All, All-reverse,
}

abbrev pub Byte : ℕ → Type 0
Byte b = b < 256

-- The `n` bytes of an integer in memory, the low one first.
abbrev pub le_bytes : ℕ → ℕ → List ℕ
le_bytes zero x = []
le_bytes (suc n) x = x % 256 ∷ le_bytes n (x / 256)

abbrev pub of_le : List ℕ → ℕ
of_le [] = 0
of_le (b ∷ bs) = b + 256 * of_le bs

-- `bswap_32` is at 4, `bswap_64` at 8.
unfoldable pub bswap : ℕ → ℕ → ℕ
bswap n x = of_le (reverse (le_bytes n x))

-- Network order: the high byte first.
unfoldable pub be_bytes : ℕ → ℕ → List ℕ
be_bytes n x = reverse (le_bytes n x)

pub length-le_bytes : (n x : ℕ) → length (le_bytes n x) ≡ n
length-le_bytes zero x = refl
length-le_bytes (suc n) x = ap suc (length-le_bytes n (x / 256))

le_bytes-Byte : (n x : ℕ) → All Byte (le_bytes n x)
le_bytes-Byte zero x = tt
le_bytes-Byte (suc n) x = (omega arith, le_bytes-Byte n (x / 256))

le_bytes-of_le : (bs : List ℕ) → All Byte bs → le_bytes (length bs) (of_le bs) ≡ bs
le_bytes-of_le [] h = refl
le_bytes-of_le (b ∷ bs) h =
    let low : (b + 256 * of_le bs) % 256 ≡ b = omega (arith, h.0) in
    let high : (b + 256 * of_le bs) / 256 ≡ of_le bs = omega (arith, h.0) in
    rw (low, high, le_bytes-of_le bs h.1) refl

-- Bytes that are read and written again.
pub le_bytes_again : (n x : ℕ) → le_bytes n (of_le (le_bytes n x)) ≡ le_bytes n x
le_bytes_again n x =
    ap (λ m. le_bytes m (of_le (le_bytes n x))) (sym (length-le_bytes n x))
    ∙ le_bytes-of_le (le_bytes n x) (le_bytes-Byte n x)

pub length-be_bytes : (n x : ℕ) → length (be_bytes n x) ≡ n
unfolding be_bytes
length-be_bytes n x = length-reverse (le_bytes n x) ∙ length-le_bytes n x

pub be_bytes-Byte : (n x : ℕ) → All Byte (be_bytes n x)
unfolding be_bytes
be_bytes-Byte n x = All-reverse Byte (le_bytes n x) (le_bytes-Byte n x)

-- The memory of a swapped integer is the integer in network order.
pub le_bytes-bswap : (n x : ℕ) → le_bytes n (bswap n x) ≡ be_bytes n x
unfolding bswap be_bytes
le_bytes-bswap n x =
    ap (λ m. le_bytes m (of_le (reverse (le_bytes n x)))) (sym (length-be_bytes n x))
    ∙ le_bytes-of_le (reverse (le_bytes n x)) (be_bytes-Byte n x)

of_le-le_bytes : (n x : ℕ) → x < 256 ^ n → of_le (le_bytes n x) ≡ x
of_le-le_bytes zero x h = omega arith
of_le-le_bytes (suc n) x h =
    let below : x / 256 < 256 ^ n = omega (arith, pow-suc 256 n) in
    omega (arith, of_le-le_bytes n (x / 256) below)

-- An integer that arrives in network order is swapped back.
pub bswap-of_le-be_bytes : (n x : ℕ) → x < 256 ^ n → bswap n (of_le (be_bytes n x)) ≡ x
unfolding bswap be_bytes
bswap-of_le-be_bytes n x h =
    ap (λ l. of_le (reverse l))
      (ap (λ m. le_bytes m (of_le (reverse (le_bytes n x)))) (sym (length-be_bytes n x))
        ∙ le_bytes-of_le (reverse (le_bytes n x)) (be_bytes-Byte n x))
    ∙ ap of_le (reverse-reverse (le_bytes n x))
    ∙ of_le-le_bytes n x h
