-- ===== src/Codec/Dict/Read.antt =====
-- The cursor of `create_map` against the bits of the file.
use native.Mathlib.Numerals.{add-one}
use multiplexing_server.Base.{
  ℕ, zero, suc, ◌+◌, ◌-◌, ◌/◌, ◌%◌, ◌^◌, ◌≤◌, ◌≡◌, refl, ap, inl, inr, List, [], ◌∷◌, ◌++◌, arith,
  some, none, Option, Option-cases, ok, Outcome, length, All, All-get_elem?, get_elem?, drop,
  drop-get_elem?,
}
use multiplexing_server.Codec.Bits.{get_bit_lem, bits_from, unpack}
use multiplexing_server.Codec.Dict.{Cursor, advance, read_bit, read_bits, IsByte}

-- The bits from the cursor to the end of the file.
ahead_of : List ℕ → ℕ → Option ℕ → ℕ → List ℕ
ahead_of file q none k = []
ahead_of file q (some b) k = bits_from k b ++ unpack (drop (suc q) file)

pub ahead : List ℕ → Cursor → List ℕ
unfolding ahead_of
ahead file c = ahead_of file c.current_byte (get_elem? file c.current_byte) c.curr_byte_bit

unpack-drop-get_elem? :
    (file : List ℕ) (q b : ℕ)
    → get_elem? file q ≡ some b
    → unpack (drop q file) ≡ bits_from 8 b ++ unpack (drop (suc q) file)
unfolding unpack
unpack-drop-get_elem? file q b g = ap unpack (drop-get_elem? file q g)

unpack-drop-none : (file : List ℕ) (q : ℕ) → get_elem? file q ≡ none → unpack (drop q file) ≡ []
unfolding unpack
unpack-drop-none [] zero g = refl
unpack-drop-none [] (suc q) g = refl
unpack-drop-none (x ∷ file) zero g = absurd (cc)
unpack-drop-none (x ∷ file) (suc q) g = unpack-drop-none file q g

pub ahead_full :
    (file : List ℕ) (q : ℕ)
    → ahead file (record { current_byte = q; curr_byte_bit = 8 }) ≡ unpack (drop q file)
unfolding ahead
ahead_full file q = elim (Option-cases (get_elem? file q)) [
  | inl g ↦ rw (g, unpack-drop-none file q g) refl
  | inr (b, g) ↦ rw (g, unpack-drop-get_elem? file q b g) refl
]

pub record InByte (c : Cursor) : Type 0 where
  pub low : 1 ≤ c.curr_byte_bit
  pub high : c.curr_byte_bit ≤ 8

-- `r` is a normal result that has read `bits`, with the cursor moved past them.
pub record Reads {A : Type 0} (file : List ℕ) (a : A) (rest : List ℕ) (r : Outcome (A × Cursor))
    : Type 0 where
  pub cursor : Cursor
  pub returns : r ≡ ok (a, cursor)
  pub in_byte : InByte cursor
  pub left : ahead file cursor ≡ rest

pub advance-InByte : (c : Cursor) → InByte c → InByte (advance c)
unfolding advance
advance-InByte c v = ground arith

at_cursor : ℕ → ℕ → Cursor
at_cursor q k = record { current_byte = q; curr_byte_bit = k }

ahead-advance_at :
    (file : List ℕ) (q k b : ℕ)
    → get_elem? file q ≡ some b
    → ahead file (at_cursor q (suc k)) ≡ b / 2 ^ k % 2 ∷ ahead file (advance (at_cursor q (suc k)))
unfolding at_cursor advance
ahead-advance_at file q zero b g = rw (ahead_full file (q + 1), add-one) (unfold ahead in rw g refl)
ahead-advance_at file q (suc k) b g = unfold ahead in rw g (ground arith)

-- The bit at the cursor, and those that are left when it has moved on.
pub ahead-advance :
    (file : List ℕ) (c : Cursor) (b : ℕ)
    → InByte c
    → get_elem? file c.current_byte ≡ some b
    → ahead file c ≡ b / 2 ^ (c.curr_byte_bit - 1) % 2 ∷ ahead file (advance c)
unfolding at_cursor
ahead-advance file c b v g =
    let e : suc (c.curr_byte_bit - 1) ≡ c.curr_byte_bit = omega arith in
    rw e at (ahead-advance_at file c.current_byte (c.curr_byte_bit - 1) b g)

module _ (file : List ℕ) (bytes : All IsByte file) where
  pub read_bit-Reads :
      (c : Cursor) (bit : ℕ) (rest : List ℕ)
      → InByte c
      → ahead file c ≡ bit ∷ rest
      → Reads file bit rest (read_bit file c)
  unfolding read_bit
  read_bit-Reads c bit rest v e = elim (Option-cases (get_elem? file c.current_byte)) [
    | inl g ↦ absurd (unfold ahead in cc (rw g at e))
    | inr (b, g) ↦
        let here = ahead-advance file c b v g in
        let value =
          get_bit_lem b (c.curr_byte_bit - 1) (All-get_elem? IsByte file c.current_byte bytes g)
            (omega arith) in
        rw g (record {
          cursor = advance c;
          returns = ground arith;
          in_byte = advance-InByte c v;
          left = ground arith;
        })
  ]

  pub read_bits-Reads :
      (bits : List ℕ) (c : Cursor) (rest : List ℕ)
      → InByte c
      → ahead file c ≡ bits ++ rest
      → Reads file bits rest (read_bits file (length bits) c)
  unfolding read_bits
  read_bits-Reads [] c rest v e = record { cursor = c; returns = refl; in_byte = v; left = e }
  read_bits-Reads (b ∷ bits) c rest v e =
      let r = read_bit-Reads c b (bits ++ rest) v e in
      let rs = read_bits-Reads bits r.cursor rest r.in_byte r.left in
      rw (r.returns, rs.returns)
        (record { cursor = rs.cursor; returns = refl; in_byte = rs.in_byte; left = rs.left })
