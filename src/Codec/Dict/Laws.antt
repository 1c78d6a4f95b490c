-- ===== src/Codec/Dict/Laws.antt =====
-- `create_map` reads back a dictionary that was written as its format says, and whatever it makes of
-- a file is a dictionary.
use multiplexing_server.Base.{
  true, ℕ, zero, suc, ◌+◌, ◌-◌, ◌%◌, ◌≤◌, ◌<◌, ◌≡◌, refl, ap, ◌∙◌, inl, inr, List, [], ◌∷◌, ◌++◌,
  append_assoc, arith, some, Option-cases, ok, Ends, Ends-bind, Ends-ok, ◌==◌, ==_iff, length, All,
  All-get_elem?, get_elem?, all_below, all_below_sound,
}
use multiplexing_server.Codec.Bits.{get_bit_lem, bits_from, unpack}
use multiplexing_server.Codec.Dict.{
  Dict, MNode, Cursor, read_bit, read_bits, read_nodes, size_from, create_map, IsBit, IsByte,
  IsDict,
}
use multiplexing_server.Codec.Dict.Read.{InByte, read_bits-Reads, advance-InByte, ahead, ahead_full}

size_table : all_below 256 (λ v. size_from (bits_from 8 v) 7 0 == v) ≡ true
unfolding all_below size_from
size_table = refl

-- Eight bits stand for the number that they are the digits of.
pub size_from_lem : (v : ℕ) → v < 256 → size_from (bits_from 8 v) 7 0 ≡ v
size_from_lem v h = (==_iff _ v).0 (all_below_sound 256 _ v size_table h)

-- The format: for each byte the length of its code in eight bits, and the code.
unfoldable pub dict_bits : List (List ℕ) → List ℕ
dict_bits [] = []
dict_bits (code ∷ codes) = bits_from 8 (length code) ++ (code ++ dict_bits codes)

-- The nodes for these codes, from the byte `curr` on.
unfoldable pub nodes_from : ℕ → List (List ℕ) → Dict
nodes_from curr [] = []
nodes_from curr (code ∷ codes) =
    record { byte = curr; code_l = length code; code = code } ∷ nodes_from ((curr + 1) % 256) codes

abbrev pub IsCode : List ℕ → Type 0
IsCode code = length code < 256

module _ (file : List ℕ) (bytes : All IsByte file) where
  read_nodes_lem :
      (codes : List (List ℕ)) (curr : ℕ) (c : Cursor) (rest : List ℕ)
      → All IsCode codes
      → InByte c
      → ahead file c ≡ dict_bits codes ++ rest
      → read_nodes file (length codes) curr c ≡ ok (nodes_from curr codes)
  unfolding read_nodes dict_bits nodes_from
  read_nodes_lem [] curr c rest h v e = refl
  read_nodes_lem (code ∷ codes) curr c rest h v e =
      let len =
        read_bits-Reads file bytes (bits_from 8 (length code)) c (code ++ (dict_bits codes ++ rest))
          v
          (e ∙ ap (◌++◌ (bits_from 8 (length code))) (append_assoc code (dict_bits codes) rest)) in
      let body =
        read_bits-Reads file bytes code len.cursor (dict_bits codes ++ rest) len.in_byte len.left in
      rw
        (
          len.returns,
          size_from_lem (length code) h.0,
          body.returns,
          read_nodes_lem codes ((curr + 1) % 256) body.cursor rest h.1 body.in_byte body.left,
        )
        refl

-- A file that holds 256 codes of fewer than 256 bits in the format, whatever follows them, gives the
-- nodes for the bytes 0 to 255 with these codes.
pub create_map-dict_bits :
    (file : List ℕ) (codes : List (List ℕ)) (rest : List ℕ)
    → All IsByte file
    → length codes ≡ 256
    → All IsCode codes
    → unpack file ≡ dict_bits codes ++ rest
    → create_map (some file) ≡ ok (nodes_from 0 codes)
unfolding create_map
create_map-dict_bits file codes rest hb n h e =
    rw (← n) (read_nodes_lem file hb codes 0 _ rest h (omega arith) (ahead_full file 0 ∙ e))

-- The nodes are those of the bytes from `curr` on, each with as many bits as it says.
abbrev NodesFrom : ℕ → Dict → Type 0
NodesFrom curr [] = Unit
NodesFrom curr (node ∷ dict) =
    (node.byte ≡ curr)
    × (length node.code ≡ node.code_l)
    × All IsBit node.code
    × NodesFrom ((curr + 1) % 256) dict

abbrev Nodes : ℕ → ℕ → Dict → Type 0
Nodes n curr d = (length d ≡ n) × NodesFrom curr d

abbrev pub ReadBits : ℕ → List ℕ × Cursor → Type 0
ReadBits n r = (length r.0 ≡ n) × All IsBit r.0 × InByte r.1

module _ (file : List ℕ) (bytes : All IsByte file) where
  read_bit-Ends : (c : Cursor) → InByte c → Ends (λ r. IsBit r.0 × InByte r.1) (read_bit file c)
  unfolding read_bit
  read_bit-Ends c v = elim (Option-cases (get_elem? file c.current_byte)) [
    | inl g ↦ rw g tt
    | inr (b, g) ↦
        let value =
          get_bit_lem b (c.curr_byte_bit - 1) (All-get_elem? IsByte file c.current_byte bytes g)
            (omega arith) in
        rw g (omega (arith, value), advance-InByte c v)
  ]

  pub read_bits-Ends : (n : ℕ) (c : Cursor) → InByte c → Ends (ReadBits n) (read_bits file n c)
  unfolding read_bits
  read_bits-Ends zero c v = (refl, tt, v)
  read_bits-Ends (suc n) c v =
      Ends-bind (λ r. IsBit r.0 × InByte r.1) (ReadBits (suc n)) (read_bit file c) _
        (read_bit-Ends c v)
        λ r h.
          Ends-bind (ReadBits n) (ReadBits (suc n)) (read_bits file n r.1) _
            (read_bits-Ends n r.1 h.1) λ rs hs. (ap suc hs.0, (h.0, hs.1), hs.2)

  read_nodes-Ends :
      (n curr : ℕ) (c : Cursor) → InByte c → Ends (Nodes n curr) (read_nodes file n curr c)
  unfolding read_nodes
  read_nodes-Ends zero curr c v = (refl, tt)
  read_nodes-Ends (suc n) curr c v =
      Ends-bind (ReadBits 8) (Nodes (suc n) curr) (read_bits file 8 c) _ (read_bits-Ends 8 c v)
        λ r h.
          Ends-bind (ReadBits (size_from r.0 7 0)) (Nodes (suc n) curr)
            (read_bits file (size_from r.0 7 0) r.1) _ (read_bits-Ends (size_from r.0 7 0) r.1 h.2)
            λ code hc.
              Ends-bind (Nodes n ((curr + 1) % 256)) (Nodes (suc n) curr)
                (read_nodes file n ((curr + 1) % 256) code.1) _
                (read_nodes-Ends n ((curr + 1) % 256) code.1 hc.2)
                λ d hd. (ap suc hd.0, (refl, hc.0, hc.1, hd.1))

NodesFrom-get_elem? :
    (dict : Dict) (curr i : ℕ) (n : MNode)
    → NodesFrom curr dict
    → curr + length dict ≤ 256
    → get_elem? dict i ≡ some n
    → (n.byte ≡ curr + i) × (length n.code ≡ n.code_l) × All IsBit n.code
NodesFrom-get_elem? [] curr i n h l g = absurd (cc)
NodesFrom-get_elem? (node ∷ dict) curr zero n h l g =
    let e : node ≡ n = ground arith in rw (← e) (omega (arith, h.0), h.1, h.2)
NodesFrom-get_elem? (node ∷ []) curr (suc i) n h l g = absurd (cc)
NodesFrom-get_elem? (node ∷ m ∷ dict) curr (suc i) n h l g =
    let t = NodesFrom-get_elem? (m ∷ dict) ((curr + 1) % 256) i n h.3 (omega arith) g in
    (omega (arith, t.0), t.1, t.2)

-- Whatever `create_map` makes of a file has a node for each byte at its index, and each node as many
-- bits, zeros and ones, as it says.
pub create_map-IsDict :
    (file : List ℕ) (dict : Dict) → All IsByte file → create_map (some file) ≡ ok dict → IsDict dict
unfolding create_map
create_map-IsDict file dict hb e =
    let start : Cursor = record { current_byte = 0; curr_byte_bit = 8 } in
    let t =
      Ends-ok (Nodes 256 0) (read_nodes file 256 0 start) dict
        (read_nodes-Ends file hb 256 0 start (omega arith)) e in
    let at = λ (i : ℕ) (n : MNode). NodesFrom-get_elem? dict 0 i n t.1 (omega (arith, t.0)) in
    record {
      size = t.0;
      byte_at = λ i n g. (omega (arith, (at i n g).0));
      code_length = λ i n g. (at i n g).1;
      code_bits = λ i n g. (at i n g).2;
    }
