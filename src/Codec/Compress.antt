-- ===== src/Codec/Compress.antt =====
-- `compress` of compression.c. Its counters are `int`: an overflow of one of them is a fault.
pub mod Written
pub mod Padding
pub mod Laws
use multiplexing_server.Base.{
  ℕ, zero, suc, ◌+◌, ◌-◌, ◌%◌, ◌^◌, List, [], ◌∷◌, Outcome, ok, fault, ltb, ◌>>=◌, or_fault,
  get_elem?, ◌==◌, if◌then◌else◌, length, reverse,
}
use multiplexing_server.Codec.Bits.{set_bit, clear_bit}
use multiplexing_server.Codec.Dict.{Dict}

-- `new_representation` with the last byte first, so that `new_representation[curr_byte - 1]` is the
-- head and `curr_byte` the length. `total_count` only grows, by one for each bit, and `curr_byte` is no
-- more than it, so it is enough that `compress` looks at it when the loops are done.
pub record Output : Type 0 where
  pub bytes : List ℕ
  pub curr_bit : ℕ
  pub total_count : ℕ

-- `new_representation[curr_byte - 1] |= (1 << k)` or `&= ~(1 << k)`
pub write_bit : ℕ → ℕ → List ℕ → List ℕ
write_bit bit k [] = []
write_bit bit k (b ∷ bs) = (if bit == 0 then clear_bit b k else set_bit b k) ∷ bs

-- `while (curr_bit > 0 && curr_bit != 8)`: once below 8 it runs down to 0.
pub pad : ℕ → List ℕ → List ℕ
pad zero bytes = bytes
pad (suc k) bytes = pad k (write_bit 0 k bytes)

-- The rest is over `junk i`, what `realloc` leaves in the byte at index `i`.
module _ (junk : ℕ → ℕ) where
  -- `realloc(new_representation, curr_byte)` when a byte has been filled
  pub grow : ℕ → List ℕ → List ℕ
  grow curr_bit bytes = if curr_bit == 8 then junk (length bytes) ∷ bytes else bytes

  -- The body of the loop over the bits of a code.
  pub put_bit : ℕ → Output → Output
  put_bit bit o =
      let left = o.curr_bit - 1 in
      record {
        bytes = write_bit bit left (grow o.curr_bit o.bytes);
        curr_bit = if left == 0 then 8 else left;
        total_count = o.total_count + 1;
      }

  -- `n` rounds of that loop from `code[j]` on.
  pub put_code : List ℕ → ℕ → ℕ → Output → Outcome Output
  put_code code zero j o = ok o
  put_code code (suc n) j o = do
    bit ← or_fault (get_elem? code j)
    put_code code n (j + 1) (put_bit bit o)

  -- The loop over the payload.
  pub put_bytes : Dict → List ℕ → Output → Outcome Output
  put_bytes dict [] o = ok o
  put_bytes dict (b ∷ bs) o = do
    node ← or_fault (get_elem? dict b)
    o' ← put_code node.code node.code_l 0 o
    put_bytes dict bs o'

  -- The new payload; the new length is its length. The first test is whether `i` gets past the payload
  -- without an overflow, the second whether `total_count` has had none.
  pub compress : Dict → List ℕ → Outcome (List ℕ)
  compress dict input =
      if ltb (length input) (2 ^ 31)
      then (do
        o ← put_bytes dict input (record { bytes = []; curr_bit = 8; total_count = 0 })
        let padded = if o.curr_bit == 8 then o.bytes else pad o.curr_bit o.bytes
        let bits_left = (8 - o.total_count % 8) % 8
        if ltb o.total_count (2 ^ 31) then ok (reverse (bits_left ∷ padded)) else fault)
      else fault
