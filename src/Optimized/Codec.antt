-- ===== src/Optimized/Codec.antt =====
-- compression_optimized.c. An allocation does not fail, and the read of the dictionary fills its
-- buffer. An overflow of the `int` `total_count` is a fault, and so is a write behind the 256 nodes.
pub mod Lines
pub mod Writing
pub mod Scan
mod Tests
use multiplexing_server.Base.{
  ℕ, zero, suc, ◌+◌, ◌-◌, ◌*◌, ◌/◌, ◌%◌, ◌^◌, bit_or, ◌&&◌, Option, none, some, List, [], ◌∷◌, ◌++◌,
  map, reverse, replicate, Outcome, ok, fault, unfinished, ◌>>=◌, or_fault, get_elem?, set, length,
  take, drop, ltb, ◌==◌, if◌then◌else◌,
}
use multiplexing_server.Codec.Bits.{get_bit, set_bit, bits_from}
use multiplexing_server.Codec.Dict.{MNode, Dict}
use multiplexing_server.Codec.Decompress.{find_code}

-- The nodes from `i` on when there is no dictionary file: the bits of the byte, `(i >> (7 - j)) & 1`.
pub fallback : ℕ → ℕ → Dict
fallback zero i = []
fallback (suc n) i = record { byte = i; code_l = 8; code = bits_from 8 i } ∷ fallback n (i + 1)

-- The loop over `j`; `curr_num` is kept modulo 256, which is what a node stores of it.
pub record Line : Type 0 where
  pub j : ℕ
  pub count : ℕ
  pub curr_num : ℕ
  pub old_curr : ℕ
  pub dict : Dict

-- `curr_num = curr_num * 10 + (buffer[k] - '0')` up to the next space
pub number_of : List ℕ → ℕ → ℕ
number_of [] num = num
number_of (b ∷ bs) num =
    let rest = number_of bs ((num * 10 + (b + 208)) % 256) in if b == 32 then num else rest

-- `for (j = j + 1; j < size && buffer[j] != ' '; j++);`
pub space_from : List ℕ → ℕ → ℕ
space_from [] j = j
space_from (b ∷ bs) j = let rest = space_from bs (j + 1) in if b == 32 then j else rest

-- The node of a line: its bytes less '0', as many of them as fit into `code_l`.
pub line_node : List ℕ → Line → MNode
line_node buffer l =
    let code = take (l.j - l.old_curr) (drop l.old_curr buffer) in
    record { byte = l.curr_num; code_l = length code % 256; code = map (λ b. (b + 208) % 256) code }

-- `if (buffer[j] == '\n')`, up to the `j++` of the loop
pub end_line : List ℕ → Line → Outcome Line
end_line buffer l =
    if ltb l.count (length l.dict)
    then (let dict = set l.dict l.count (line_node buffer l) in
        if ltb (l.j + 1) (length buffer)
        then (let space = space_from (drop (l.j + 1) buffer) (l.j + 1) in
            ok (record {
              j = space + 1;
              count = l.count + 1;
              curr_num = number_of (drop (l.j + 1) buffer) 0;
              old_curr = space + 1;
              dict = dict;
            }))
        else ok (record {
          j = l.j + 1;
          count = l.count + 1;
          curr_num = l.curr_num;
          old_curr = l.old_curr;
          dict = dict;
        }))
    else fault

pub line_step : List ℕ → Line → Outcome Line
line_step buffer l = elim (get_elem? buffer l.j) [
  | none ↦ fault
  | some b ↦ if b == 10 then end_line buffer l else ok (record l { j = l.j + 1 })
]

-- `if (count >= 256) break;` ends the loop as its test of `j` does.
pub read_lines : List ℕ → ℕ → Line → Outcome Dict
read_lines buffer zero l = unfinished
read_lines buffer (suc fuel) l =
    let rest = (line_step buffer l >>= read_lines buffer fuel) in
    if ltb l.j (length buffer) && ltb l.count 256 then rest else ok l.dict

-- A node that `calloc` leaves.
abbrev pub empty_node : MNode
empty_node = record { byte = 0; code_l = 0; code = [] }

-- `none` is a dictionary that cannot be opened. Each round of the loop moves `j` on.
pub create_map_optimized : Option (List ℕ) → Outcome Dict
create_map_optimized none = ok (fallback 256 0)
create_map_optimized (some buffer) =
    read_lines buffer (suc (length buffer))
      (record { j = 0; count = 0; curr_num = 0; old_curr = 0; dict = replicate 256 empty_node })

-- The bits since the last code, and what has been decompressed.
pub record Scanned : Type 0 where
  pub buffer : List ℕ
  pub rep : List ℕ

-- One bit: it joins the buffer, and a code that it completes is replaced by its byte.
pub take_bit : Dict → ℕ → Scanned → Scanned
take_bit dict bit s =
    let buffer = s.buffer ++ bit ∷ [] in
    elim (find_code dict (length buffer) buffer) [
      | none ↦ record { buffer = buffer; rep = s.rep }
      | some b ↦ record { buffer = []; rep = s.rep ++ b ∷ [] }
    ]

-- `for (j = 8; j >= 1; j--)`
pub scan_byte : Dict → ℕ → ℕ → Scanned → Scanned
scan_byte dict b zero s = s
scan_byte dict b (suc j) s = scan_byte dict b j (take_bit dict (get_bit b j) s)

pub scan_bytes : Dict → List ℕ → Scanned → Scanned
scan_bytes dict [] s = s
scan_bytes dict (b ∷ bs) s = scan_bytes dict bs (scan_byte dict b 8 s)

-- The new payload; its buffers grow as they fill. Bits behind the last code are left out.
pub decompress_optimized : Dict → List ℕ → List ℕ
decompress_optimized dict [] = []
decompress_optimized dict (b ∷ bs) =
    (scan_bytes dict (b ∷ bs) (record { buffer = []; rep = [] })).rep

-- `full` is `new_representation`, with the last byte first.
pub record Output : Type 0 where
  pub full : List ℕ
  pub current_byte : ℕ
  pub total_count : ℕ

-- The body of the loop over a code.
pub put_bit : ℕ → Output → Output
put_bit bit o =
    let current =
      if bit == 1 then set_bit o.current_byte (7 - o.total_count % 8) else o.current_byte in
    let total = o.total_count + 1 in
    if total % 8 == 0
    then record { full = current ∷ o.full; current_byte = 0; total_count = total }
    else record { full = o.full; current_byte = current; total_count = total }

-- `n` rounds of that loop from `code[j]` on.
pub put_code : List ℕ → ℕ → ℕ → Output → Outcome Output
put_code code zero j o = ok o
put_code code (suc n) j o = do
  bit ← or_fault (get_elem? code j)
  put_code code n (j + 1) (put_bit bit o)

pub put_bytes : Dict → List ℕ → Output → Outcome Output
put_bytes dict [] o = ok o
put_bytes dict (b ∷ bs) o = do
  node ← or_fault (get_elem? dict b)
  o' ← put_code node.code node.code_l 0 o
  put_bytes dict bs o'

-- `if (total_count % 8 != 0)`: the last byte, with the number of bits left in it.
pub finish : Output → List ℕ
finish o =
    if o.total_count % 8 == 0
    then reverse o.full
    else reverse (bit_or o.current_byte ((8 - o.total_count % 8) % 8) ∷ o.full)

-- The new payload. `total_count` only grows, so that it is looked at when the loops are done.
pub compress_optimized : Dict → List ℕ → Outcome (List ℕ)
compress_optimized dict [] = ok []
compress_optimized dict (b ∷ bs) = do
  o ← put_bytes dict (b ∷ bs) (record { full = []; current_byte = 0; total_count = 0 })
  if ltb o.total_count (2 ^ 31) then ok (finish o) else fault
