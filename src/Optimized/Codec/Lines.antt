-- ===== src/Optimized/Codec/Lines.antt =====
-- `create_map_optimized` of compression_optimized.c ends, and what it makes can be read.
use multiplexing_server.Base.{
  ℕ, zero, suc, ◌+◌, ◌-◌, ◌%◌, ◌≤◌, ◌<◌, ◌≡◌, refl, ap, ◌∙◌, inl, inr, Bool-cases, ◌&&◌, Option,
  none, some, List, [], ◌∷◌, map, Outcome, ok, lt→ltb, get_elem?-of_lt, set, length-set, replicate,
  length-replicate, length, take, drop, ltb, ◌==◌, if◌then◌else◌, All, arith,
}
use multiplexing_server.Codec.Dict.{MNode, Dict}
use multiplexing_server.Optimized.Codec.{
  Line, space_from, line_node, end_line, line_step, read_lines, fallback, empty_node,
  create_map_optimized,
}

-- A node that has the bits that it says it has.
abbrev pub HasCode : MNode → Type 0
HasCode n = n.code_l ≤ length n.code

abbrev IsTable : Dict → Type 0
IsTable dict = (length dict ≡ 256) × All HasCode dict

le-space_from : (bs : List ℕ) (j : ℕ) → j ≤ space_from bs j
unfolding space_from
le-space_from [] j = omega arith
le-space_from (b ∷ bs) j = elim (Bool-cases (b == 32)) [
  | inl e ↦ rw e (omega arith)
  | inr e ↦ rw e (omega (arith, le-space_from bs (j + 1)))
]

length-map : (f : ℕ → ℕ) (xs : List ℕ) → length (map f xs) ≡ length xs
length-map f [] = refl
length-map f (x ∷ xs) = ap suc (length-map f xs)

line_node-HasCode : (buffer : List ℕ) (l : Line) → HasCode (line_node buffer l)
unfolding line_node
line_node-HasCode buffer l =
    omega
      (arith, length-map (λ b. (b + 208) % 256) (take (l.j - l.old_curr) (drop l.old_curr buffer)))

All-set :
    (dict : Dict) (i : ℕ) (n : MNode) → All HasCode dict → HasCode n → All HasCode (set dict i n)
All-set [] i n h hn = tt
All-set (m ∷ dict) zero n h hn = (hn, h.1)
All-set (m ∷ dict) (suc i) n h hn = (h.0, All-set dict i n h.1 hn)

set-IsTable :
    (buffer : List ℕ) (l : Line)
    → IsTable l.dict
    → IsTable (set l.dict l.count (line_node buffer l))
set-IsTable buffer l (n, h) = (
  length-set l.dict l.count (line_node buffer l) ∙ n,
  All-set l.dict l.count (line_node buffer l) h (line_node-HasCode buffer l),
)

-- A round writes inside of the table, moves on and keeps the table.
record Moves (l : Line) (r : Outcome Line) : Type 0 where
  line : Line
  returns : r ≡ ok line
  forward : l.j < line.j
  table : IsTable line.dict

end_line-Moves :
    (buffer : List ℕ) (l : Line) → l.count < 256 → IsTable l.dict → Moves l (end_line buffer l)
unfolding end_line
end_line-Moves buffer l c h =
    let inside = lt→ltb l.count (length l.dict) (omega (arith, c, h.0)) in
    elim (Bool-cases (ltb (l.j + 1) (length buffer))) [
      | inl e ↦
          rw (inside, e)
            (record {
              line = _;
              returns = refl;
              forward = omega (arith, le-space_from (drop (l.j + 1) buffer) (l.j + 1));
              table = set-IsTable buffer l h;
            })
      | inr e ↦
          rw (inside, e)
            (record {
              line = _;
              returns = refl;
              forward = omega arith;
              table = set-IsTable buffer l h;
            })
    ]

line_step-Moves :
    (buffer : List ℕ) (l : Line)
    → l.j < length buffer
    → l.count < 256
    → IsTable l.dict
    → Moves l (line_step buffer l)
unfolding line_step
line_step-Moves buffer l lt c h =
    let (b, e) = get_elem?-of_lt buffer l.j lt in
    let s : line_step buffer l
        ≡ (if b == 10 then end_line buffer l else ok (record l { j = l.j + 1 })) =
      rw (e, line_step) refl in
    elim (Bool-cases (b == 10)) [
      | inl g ↦ rw s (rw g (end_line-Moves buffer l c h))
      | inr g ↦ rw s (rw g (record { line = _; returns = refl; forward = omega arith; table = h }))
    ]

read_lines-IsTable :
    (buffer : List ℕ) (fuel : ℕ) (l : Line)
    → length buffer < l.j + fuel
    → 0 < fuel
    → IsTable l.dict
    → (dict : Dict) × (read_lines buffer fuel l ≡ ok dict) × IsTable dict
unfolding read_lines
read_lines-IsTable buffer zero l lt pos h = absurd (omega arith)
read_lines-IsTable buffer (suc fuel) l lt pos h =
    elim (Bool-cases (ltb l.j (length buffer) && ltb l.count 256)) [
      | inl e ↦
          let inside : l.j < length buffer = ground arith in
          let m = line_step-Moves buffer l inside (ground arith) h in
          let (dict, r, t) =
            read_lines-IsTable buffer fuel m.line (omega (arith, m.forward))
              (omega (arith, inside, m.forward, lt)) m.table in
          (dict, rw e (rw m.returns r), t)
      | inr e ↦ (l.dict, rw e refl, h)
    ]

fallback-IsTable : (n i : ℕ) → (length (fallback n i) ≡ n) × All HasCode (fallback n i)
unfolding fallback
fallback-IsTable zero i = (refl, tt)
fallback-IsTable (suc n) i = let t = fallback-IsTable n (i + 1) in (ap suc t.0, (omega arith, t.1))

empty-HasCode : (n : ℕ) → All HasCode (replicate n empty_node)
empty-HasCode zero = tt
empty-HasCode (suc n) = (omega arith, empty-HasCode n)

-- Whatever the dictionary file holds, and if there is none, `create_map_optimized` writes no node
-- behind the 256 of its table and ends with these, each of which has as many bits at least as it says,
-- so that no loop over a code reads past it.
pub create_map_optimized-ends :
    (file : Option (List ℕ))
    → (dict : Dict) × (create_map_optimized file ≡ ok dict) × (length dict ≡ 256) × All HasCode dict
unfolding create_map_optimized
create_map_optimized-ends none = let t = fallback-IsTable 256 0 in (fallback 256 0, refl, t.0, t.1)
create_map_optimized-ends (some buffer) =
    let (dict, r, t) =
      read_lines-IsTable buffer (suc (length buffer)) _ (omega arith) (omega arith)
        (length-replicate {A = MNode} 256 empty_node, empty-HasCode 256) in
    (dict, r, t.0, t.1)
