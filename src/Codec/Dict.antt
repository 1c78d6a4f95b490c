-- ===== src/Codec/Dict.antt =====
-- The compression dictionary: `map_node` of tp.h, and `create_map` of compression.c, which reads it
-- from the bytes of "(sample)compression.dict".
pub mod Read
pub mod Laws
mod Tests
use multiplexing_server.Base.{
  ℕ, zero, suc, ◌+◌, ◌-◌, ◌*◌, ◌%◌, ◌^◌, ◌<◌, ◌≡◌, ◌≢◌, Option, none, some, List, [], ◌∷◌, ◌++◌,
  Outcome, ok, exited, ◌>>=◌, or_fault, get_elem?, length, All, ◌==◌, ◌&&◌, if◌then◌else◌,
}
use multiplexing_server.Codec.Bits.{get_bit}

-- `struct map_node`
pub record MNode : Type 0 where
  pub byte : ℕ
  pub code_l : ℕ
  pub code : List ℕ

-- `m_node *`: 256 nodes, indexed by the byte that they encode.
abbrev pub Dict : Type 0
Dict = List MNode

-- Where the next bit is read: `current_byte` and `curr_byte_bit`.
pub record Cursor : Type 0 where
  pub current_byte : ℕ
  pub curr_byte_bit : ℕ

-- `curr_byte_bit--; if (curr_byte_bit == 0) { curr_byte_bit = 8; current_byte++; }`
pub advance : Cursor → Cursor
advance c =
    let left = c.curr_byte_bit - 1 in
    if left == 0
    then record { current_byte = c.current_byte + 1; curr_byte_bit = 8 }
    else record { current_byte = c.current_byte; curr_byte_bit = left }

-- One bit at the cursor, and the cursor moved on. A read past the buffer is a fault.
unfoldable pub read_bit : List ℕ → Cursor → Outcome (ℕ × Cursor)
read_bit buffer c = do
  b ← or_fault (get_elem? buffer c.current_byte)
  ok (get_bit b (c.curr_byte_bit - 1), advance c)

-- The loops that fill `len` and `code`: `n` bits, in the order read.
unfoldable pub read_bits : List ℕ → ℕ → Cursor → Outcome (List ℕ × Cursor)
read_bits buffer zero c = ok ([], c)
read_bits buffer (suc n) c = do
  (b, c') ← read_bit buffer c
  (bs, c'') ← read_bits buffer n c'
  ok (b ∷ bs, c'')

-- `size += pow(2 * len[i], power)` with `power` counting down from 7, but for `pow(0, 0)`, which is 1
-- and is left out. `size` is a `u_int8_t`.
unfoldable pub size_from : List ℕ → ℕ → ℕ → ℕ
size_from [] power size = size
size_from (b ∷ bs) power size =
    size_from bs (power - 1)
      (if (2 * b == 0) && (power == 0) then size else (size + (2 * b) ^ power) % 256)

-- The body of `while (count < 256)`, with `n` rounds left.
unfoldable pub read_nodes : List ℕ → ℕ → ℕ → Cursor → Outcome Dict
read_nodes buffer zero curr c = ok []
read_nodes buffer (suc n) curr c = do
  (len, c') ← read_bits buffer 8 c
  let size = size_from len 7 0
  (code, c'') ← read_bits buffer size c'
  rest ← read_nodes buffer n ((curr + 1) % 256) c''
  ok (record { byte = curr; code_l = size; code = code } ∷ rest)

-- `none` is a dictionary that cannot be opened. The read fills the buffer.
unfoldable pub create_map : Option (List ℕ) → Outcome Dict
create_map none = exited
create_map (some buffer) = read_nodes buffer 256 0 (record { current_byte = 0; curr_byte_bit = 8 })

abbrev pub IsBit : ℕ → Type 0
IsBit b = b < 2

abbrev pub IsByte : ℕ → Type 0
IsByte b = b < 256

-- What the codec relies on: a node for each byte, at its index, with a code of one bit at least.
pub record IsDict (dict : Dict) : Type 0 where
  pub size : length dict ≡ 256
  pub byte_at : (i : ℕ) (n : MNode) → get_elem? dict i ≡ some n → n.byte ≡ i
  pub code_length : (i : ℕ) (n : MNode) → get_elem? dict i ≡ some n → length n.code ≡ n.code_l
  pub code_bits : (i : ℕ) (n : MNode) → get_elem? dict i ≡ some n → All IsBit n.code

-- No code is a prefix of the code of another byte, and none is empty.
pub record IsPrefixFree (dict : Dict) : Type 0 where
  pub nonempty : (i : ℕ) (n : MNode) → get_elem? dict i ≡ some n → n.code ≢ []
  pub apart :
      (i j : ℕ) (m n : MNode) (rest : List ℕ)
      → get_elem? dict i ≡ some m
      → get_elem? dict j ≡ some n
      → m.code ++ rest ≡ n.code
      → i ≡ j
