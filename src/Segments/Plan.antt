-- ===== src/Segments/Plan.antt =====
-- How `parent_send` divides a range among the connections.
use multiplexing_server.Base.{
  ℕ, zero, suc, ◌+◌, ◌-◌, ◌*◌, ◌/◌, ◌%◌, ◌^◌, ◌≤◌, ◌<◌, ◌≡◌, ◌⊎◌, inl, inr, refl, ap, ap₂, ◌∙◌,
  List, [], ◌∷◌, ◌++◌, length, length-append, All, All-append, All-mono, append_assoc, lt→ltb,
  arith,
}
use multiplexing_server.Segments.{Piece, write_pieces, split_range}

-- The pieces follow each other from `start` to `stop`, with no gap and no overlap.
abbrev pub Tiles : ℕ → List Piece → ℕ → Type 0
Tiles start [] stop = start ≡ stop
Tiles start (p ∷ ps) stop = (p.offset ≡ start) × Tiles (start + p.length) ps stop

pub Tiles-append :
    (start middle stop : ℕ) (ps qs : List Piece)
    → Tiles start ps middle
    → Tiles middle qs stop
    → Tiles start (ps ++ qs) stop
Tiles-append start middle stop [] qs h k = rw h k
Tiles-append start middle stop (p ∷ ps) qs h k =
    (h.0, Tiles-append (start + p.length) middle stop ps qs h.1 k)

suc_mul : (k d : ℕ) → suc k * d ≡ d + k * d
suc_mul k d = omega arith

-- What one of the two loops writes.
pub record Written (count len start : ℕ) : Type 0 where
  pub last : (write_pieces count len start).1 ≡ start + count * len
  pub tiles : Tiles start (write_pieces count len start).0 (start + count * len)
  pub size : length (write_pieces count len start).0 ≡ count
  pub lengths : All (λ p. p.length ≡ len) (write_pieces count len start).0

pub write_pieces-Written :
    (count len start : ℕ) → start + count * len < 2 ^ 64 → Written count len start
unfolding write_pieces
write_pieces-Written zero len start h = record {
  last = omega arith;
  tiles = omega arith;
  size = refl;
  lengths = tt;
}
write_pieces-Written (suc count) len start h =
    let step : (start + len) % 2 ^ 64 ≡ start + len = omega (arith, suc_mul count len) in
    let w = write_pieces-Written count len (start + len) (omega (arith, suc_mul count len)) in
    let eq : start + (len + count * len) ≡ start + len + count * len = omega arith in
    record {
      last = rw step (w.last ∙ omega (arith, suc_mul count len));
      tiles = rw step (refl, rw (suc_mul count len, eq) w.tiles);
      size = rw step (ap suc w.size);
      lengths = rw step (refl, w.lengths);
    }

pub division_lem : (n size : ℕ) → (n + 1) * (size / (n + 1)) + size % (n + 1) ≡ size
division_lem n size = omega arith

pub remainder_lem : (n size : ℕ) → size % (n + 1) ≤ n
remainder_lem n size = omega arith

parts_lem : (extra k d : ℕ) → (extra * (d + 1) + k * d) + d ≡ (extra + k + 1) * d + extra
parts_lem extra k d = omega arith

-- A division of a range over the connections and the parent.
pub record Splits (n offset size : ℕ) (pieces : List Piece) (parent : Piece) : Type 0 where
  pub tiles : Tiles offset (pieces ++ parent ∷ []) (offset + size)
  pub count : length pieces ≡ n
  pub balanced : All (λ p. (p.length ≡ size / (n + 1)) ⊎ (p.length ≡ size / (n + 1) + 1)) pieces
  pub parent_length : parent.length ≡ size / (n + 1)

-- For a range that ends below 2^64, and while `num_connect` stays the same, the pieces of the `n`
-- other connections and the one of the parent, which is the last, cover the range with no gap and
-- no overlap, and their lengths differ by one at most.
pub split_range-Splits :
    (n offset size : ℕ)
    → offset + size < 2 ^ 64
    → let (pieces, parent) = split_range n n offset size in Splits n offset size pieces parent
unfolding split_range
split_range-Splits zero offset size h = record {
  tiles = (refl, ap (◌+◌ offset) (omega arith));
  count = refl;
  balanced = tt;
  parent_length = refl;
}
split_range-Splits (suc m) offset size h =
    let n = suc m in
    let d = size / (n + 1) in
    let extra = size % (n + 1) in
    let k = n - extra in
    let whole = division_lem n size in
    let few = remainder_lem n size in
    let parts = parts_lem extra k d in
    let all_parts : extra + k + 1 ≡ n + 1 = omega (arith, few) in
    let sum : (extra * (d + 1) + k * d) + d ≡ size =
      parts ∙ ap (λ t. t * d + extra) all_parts ∙ whole in
    let wraps : (d + 1) % 2 ^ 64 ≡ d + 1 = omega (arith, whole) in
    let w = write_pieces-Written extra (d + 1) offset (omega (arith, sum)) in
    let middle = offset + extra * (d + 1) in
    let v = write_pieces-Written k d middle (omega (arith, sum)) in
    let long = (write_pieces extra (d + 1) offset).0 in
    let short = (write_pieces k d middle).0 in
    let parent : Piece = record { offset = (write_pieces k d middle).1; length = d } in
    let stop : middle + k * d + d ≡ offset + size = omega (arith, sum) in
    rw (lt→ltb 0 n (omega arith)) (
      rw wraps (
        rw w.last (record {
          tiles = rw (append_assoc long short (parent ∷ [])) (
              Tiles-append offset middle (offset + size) long (short ++ parent ∷ []) w.tiles (
                Tiles-append middle (middle + k * d) (offset + size) short (parent ∷ []) v.tiles
                  (v.last, stop)));
          count = length-append long short ∙ ap₂ ◌+◌ w.size v.size ∙ omega (arith, few);
          balanced =
              All-append IsShare long short
                (All-mono (λ p. p.length ≡ d + 1) IsShare long (λ p e. inr e) w.lengths)
                (All-mono (λ p. p.length ≡ d) IsShare short (λ p e. inl e) v.lengths);
          parent_length = refl;
        })))
  where
    IsShare : Piece → Type 0
    IsShare p = (p.length ≡ size / (suc m + 1)) ⊎ (p.length ≡ size / (suc m + 1) + 1)
