-- ===== src/Trie.antt =====
-- compression_opt.c: the codec over a trie of the codes. An allocation does not fail.
pub mod Insert
pub mod Build
pub mod Writing
pub mod Scan
pub mod RoundTrip
mod Tests
use multiplexing_server.Base.{
  ℕ, zero, suc, ◌+◌, ◌-◌, ◌*◌, ◌/◌, ◌%◌, ◌^◌, bit_or, Bool, true, false, Option, none, some, List,
  [], ◌∷◌, ◌++◌, reverse, Outcome, ok, fault, exited, ◌>>=◌, or_fault, get_elem?, length, take, ltb,
  leb, ◌==◌, if◌then◌else◌,
}
use multiplexing_server.Codec.Bits.{get_bit, set_bit}
use multiplexing_server.Codec.Dict.{Cursor, advance}
use multiplexing_server.Message.{malloc}

-- `trie_node *`: `node` has its two children, `byte` and `is_leaf`.
pub data TrieNode : Type 0 where
  null : TrieNode
  node : TrieNode → TrieNode → ℕ → Bool → TrieNode

-- An entry of `encode_table`; `code` is an allocation of `code_length` bytes.
pub record CodeEntry : Type 0 where
  pub code_length : ℕ
  pub code : List ℕ

-- `compression_map_opt`
pub record CompressionMap : Type 0 where
  pub root : TrieNode
  pub encode_table : List CodeEntry

abbrev pub create_trie_node : TrieNode
create_trie_node = node null null 0 false

-- `if (!current->children[bit]) current->children[bit] = create_trie_node();`
abbrev pub created : TrieNode → TrieNode
created null = create_trie_node
created (node left right byte is_leaf) = node left right byte is_leaf

-- A bit that is neither 0 nor 1 is an index past `children`.
pub insert_trie : List ℕ → ℕ → TrieNode → Outcome TrieNode
insert_trie code byte null = fault
insert_trie [] byte (node left right b is_leaf) = ok (node left right byte true)
insert_trie (zero ∷ code) byte (node left right b is_leaf) =
    insert_trie code byte (created left) >>= λ left'. ok (node left' right b is_leaf)
insert_trie (suc zero ∷ code) byte (node left right b is_leaf) =
    insert_trie code byte (created right) >>= λ right'. ok (node left right' b is_leaf)
insert_trie (suc (suc bit) ∷ code) byte (node left right b is_leaf) = fault

-- The loops that read `n` bits from `code[i]` on. The end of the file ends a loop, and the rest is what
-- stood there.
pub read_code : List ℕ → (ℕ → ℕ) → ℕ → ℕ → Cursor → List ℕ × Cursor
read_code buffer before zero i c = ([], c)
read_code buffer before (suc n) i c =
    let (bits, c') = read_code buffer before n (i + 1) (advance c) in
    elim (get_elem? buffer c.current_byte) [
      | none ↦ (malloc before (suc n) i, c)
      | some b ↦ (get_bit b (c.curr_byte_bit - 1) ∷ bits, c')
    ]

-- `code_length |= (bit << i)` with `i` counting down from `power`, on a `uint8_t`
pub length_from : List ℕ → ℕ → ℕ → ℕ
length_from [] power code_length = code_length
length_from (bit ∷ bits) power code_length =
    length_from bits (power - 1) (bit_or code_length (bit * 2 ^ power) % 256)

-- The loop over the bytes from `byte_val` on, with `n` left; `junk` is what `malloc` leaves in a code.
pub read_entries :
    List ℕ → (ℕ → ℕ) → ℕ → ℕ → Cursor → TrieNode → Outcome (List CodeEntry × TrieNode)
read_entries buffer junk zero byte_val c root = ok ([], root)
read_entries buffer junk (suc n) byte_val c root = do
  let (len, c') = read_code buffer (λ i. 0) 8 0 c
  let code_length = length_from len 7 0
  let (code, c'') = read_code buffer junk code_length 0 c'
  root' ← insert_trie code byte_val root
  (entries, root'') ← read_entries buffer junk n (byte_val + 1) c'' root'
  ok (record { code_length = code_length; code = code } ∷ entries, root'')

-- `none` is a dictionary that cannot be opened. The read fills the buffer.
pub create_map_optimized : (ℕ → ℕ) → Option (List ℕ) → Outcome CompressionMap
create_map_optimized junk none = exited
create_map_optimized junk (some buffer) = do
  (entries, root) ←
      read_entries buffer junk 256 0 (record { current_byte = 0; curr_byte_bit = 8 })
        create_trie_node
  ok (record { root = root; encode_table = entries })

-- The bytes of `compressed` up to `byte_index`, the last first; those behind it are zero.
pub record Output : Type 0 where
  pub bytes : List ℕ
  pub bit_index : ℕ
  pub compressed_bits : ℕ

-- `compressed[byte_index] |= (1 << bit_index)`; a write past the `room` of the allocation is a fault.
pub set_at : ℕ → ℕ → List ℕ → Outcome (List ℕ)
set_at room k [] = fault
set_at room k (b ∷ bs) = if leb (length (b ∷ bs)) room then ok (set_bit b k ∷ bs) else fault

-- The body of the loop over a code. `bit_index` goes from 0 to 7 of the next byte.
pub put_bit : ℕ → ℕ → Output → Outcome Output
put_bit room bit o = do
  bytes ← (if bit == 0 then ok o.bytes else set_at room o.bit_index o.bytes)
  ok (
      if o.bit_index == 0
      then record { bytes = 0 ∷ bytes; bit_index = 7; compressed_bits = o.compressed_bits + 1 }
      else record {
        bytes = bytes;
        bit_index = o.bit_index - 1;
        compressed_bits = o.compressed_bits + 1;
      })

pub put_code : ℕ → List ℕ → Output → Outcome Output
put_code room [] o = ok o
put_code room (bit ∷ code) o = put_bit room bit o >>= put_code room code

pub put_bytes : ℕ → List CodeEntry → List ℕ → Output → Outcome Output
put_bytes room table [] o = ok o
put_bytes room table (b ∷ bs) o = do
  entry ← or_fault (get_elem? table b)
  o' ← put_code room entry.code o
  put_bytes room table bs o'

-- What the data is replaced by; `compressed` has room for 8 bytes for each byte of the data.
pub compress_optimized : CompressionMap → List ℕ → Outcome (List ℕ)
compress_optimized m [] = ok []
compress_optimized m (b ∷ bs) = do
  let size = length (b ∷ bs)
  o ←
      put_bytes (size * 8) m.encode_table (b ∷ bs)
        (record { bytes = 0 ∷ []; bit_index = 7; compressed_bits = 0 })
  let compressed_bytes = (o.compressed_bits + 7) / 8
  ok (if ltb compressed_bytes size then take compressed_bytes (reverse o.bytes) else b ∷ bs)

-- `children[bit]`
abbrev pub child : ℕ → TrieNode → TrieNode
child bit null = null
child zero (node left right byte is_leaf) = left
child (suc zero) (node left right byte is_leaf) = right
child (suc (suc bit)) (node left right byte is_leaf) = null

-- The loops: `current`, and what has been decompressed, the last first; `none` once a code is not
-- valid.
abbrev pub Walk : Type 0
Walk = Option (TrieNode × List ℕ)

pub visit : TrieNode → List ℕ → TrieNode → Walk
visit root out null = none
visit root out (node left right byte is_leaf) =
    if is_leaf then some (root, byte ∷ out) else some (node left right byte is_leaf, out)

pub follow : TrieNode → ℕ → Walk → Walk
follow root bit none = none
follow root bit (some (current, out)) = visit root out (child bit current)

-- The bits of a byte from `bit_idx` down, with `j` for `bit_idx + 1`.
pub follow_byte : TrieNode → ℕ → ℕ → Walk → Walk
follow_byte root b zero w = w
follow_byte root b (suc j) w = follow_byte root b j (follow root (get_bit b j) w)

pub follow_bytes : TrieNode → List ℕ → Walk → Walk
follow_bytes root [] w = w
follow_bytes root (b ∷ bs) w = follow_bytes root bs (follow_byte root b 8 w)

-- What the data is replaced by: it stays if a code is not valid.
pub decompress_optimized : CompressionMap → List ℕ → List ℕ
decompress_optimized m bs = elim (follow_bytes m.root bs (some (m.root, []))) [
  | none ↦ bs
  | some (current, out) ↦ reverse out
]
