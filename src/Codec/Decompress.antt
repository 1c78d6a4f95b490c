-- ===== src/Codec/Decompress.antt =====
-- `decompress` of compression.c.
pub mod Codes
pub mod Laws
use multiplexing_server.Base.{
  ℕ, zero, suc, ◌+◌, ◌-◌, ◌*◌, ◌%◌, ◌^◌, Bool, true, false, Option, none, some, List, [], ◌∷◌, ◌++◌,
  Outcome, ok, ◌>>=◌, or_fault, get_elem?, ◌==◌, ◌&&◌, if◌then◌else◌, length,
}
use multiplexing_server.Codec.Bits.{get_bit}
use multiplexing_server.Codec.Dict.{Dict}

-- `memcmp(a, b, n) == 0` on arrays that hold `n` bytes each
pub same_bytes : ℕ → List ℕ → List ℕ → Bool
same_bytes zero a b = true
same_bytes (suc n) (x ∷ a) (y ∷ b) = (x == y) && same_bytes n a b
same_bytes (suc n) _ _ = false

-- `for (q = 0; q < 256; q++)`: the byte of the first node whose code is `buffer[0..count)`
pub find_code : Dict → ℕ → List ℕ → Option ℕ
find_code [] count buffer = none
find_code (node ∷ dict) count buffer =
    if (node.code_l == count) && same_bytes count node.code buffer
    then some node.byte
    else find_code dict count buffer

pub record Scan : Type 0 where
  pub buffer : List ℕ
  pub count : ℕ
  pub rep : List ℕ
  pub curr_bits : ℕ

-- `returned` is the early return, with the new payload.
pub data Progress : Type 0 where
  running : Scan → Progress
  returned : List ℕ → Progress

module _ (dict : Dict) (total_bits : ℕ) where
  -- One bit: it joins the buffer, and a code that it completes is replaced by its byte.
  pub take_bit : ℕ → Scan → Scan
  take_bit bit s =
      let buffer = s.buffer ++ bit ∷ [] in
      let count = s.count + 1 in
      elim (find_code dict count buffer) [
        | none ↦ record { buffer = buffer; count = count; rep = s.rep; curr_bits = s.curr_bits + 1 }
        | some b ↦ record {
          buffer = [];
          count = 0;
          rep = s.rep ++ b ∷ [];
          curr_bits = s.curr_bits + 1;
        }
      ]

  -- `if (curr_bits == total_bits)`, on two values of type `int`
  pub check_end : Scan → Progress
  check_end s = if s.curr_bits % 2 ^ 32 == total_bits then returned s.rep else running s

  -- `for (j = 8; j > 0; j--)`
  pub scan_byte : ℕ → ℕ → Progress → Progress
  scan_byte b zero p = p
  scan_byte b (suc j) (returned rep) = returned rep
  scan_byte b (suc j) (running s) = scan_byte b j (check_end (take_bit (get_bit b j) s))

  pub scan_bytes : List ℕ → Progress → Progress
  scan_bytes [] p = p
  scan_bytes (b ∷ bs) p = scan_bytes bs (scan_byte b 8 p)

-- The last byte is read first; with no byte at all that read is out of range. `total_bits` is the
-- `int` that the 64-bit difference is cut to, as a pattern of 32 bits.
pub decompress : Dict → List ℕ → Outcome (List ℕ)
decompress dict input = do
  last ← or_fault (get_elem? input (length input - 1))
  let total_bits = ((length input - 1) * 8 + 2 ^ 64 - last) % 2 ^ 32
  let start : Scan = record { buffer = []; count = 0; rep = []; curr_bits = 0 }
  ok (elim (scan_bytes dict total_bits input (running start)) [
    | running s ↦ input
    | returned rep ↦ rep
  ])
