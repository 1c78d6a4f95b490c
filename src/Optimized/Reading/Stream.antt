-- ===== src/Optimized/Reading/Stream.antt =====
-- `read_full` against the stream of bytes of a connection.
pub mod Described
use multiplexing_server.Base.{
  ℕ, zero, suc, ◌-◌, ◌/◌, ◌%◌, ◌^◌, ◌<◌, ◌≡◌, refl, sym, ap, ◌∙◌, inl, inr, true, false, ◌||◌, not,
  Bool-cases, Option-cases, Option, none, some, List, [], ◌∷◌, ◌++◌, append_assoc, Outcome, ok,
  ◌>>=◌, >>=-assoc, lt→ltb, length, take, drop, ltb, leb, leb_of_lt, le→leb, ◌==◌, ==_of_ne,
  if◌then◌else◌, arith,
}
use multiplexing_server.Codec.Dict.{Dict}
use multiplexing_server.Wire.{of_le, bswap}
use multiplexing_server.Message.{
  bytes, failed, Socket, read, rest_of, Message, Description, closed, bare, full, has_payload,
  decompress_message,
}
use multiplexing_server.Optimized.Reading.{
  prepend, read_loop, read_full, read_whole, read_payload_optimized, get_description_optimized,
}

-- The bytes that are still to come.
abbrev pub stream : Socket → List ℕ
stream [] = []
stream (failed ∷ socket) = stream socket
stream (bytes b bs ∷ socket) = b ∷ (bs ++ stream socket)

-- The connection does not fail.
abbrev pub AllArrive : Socket → Type 0
AllArrive [] = Unit
AllArrive (failed ∷ socket) = ⊥
AllArrive (bytes b bs ∷ socket) = AllArrive socket

pub stream-rest_of :
    (xs : List ℕ) (socket : Socket) → stream (rest_of xs socket) ≡ xs ++ stream socket
stream-rest_of [] socket = refl
stream-rest_of (x ∷ xs) socket = refl

pub rest_of-AllArrive :
    (xs : List ℕ) (socket : Socket) → AllArrive socket → AllArrive (rest_of xs socket)
rest_of-AllArrive [] socket h = h
rest_of-AllArrive (x ∷ xs) socket h = h

-- The first `n` bytes of a stream, none if it ends before, and what is left.
unfoldable pub take_exactly : ℕ → List ℕ → Option (List ℕ) × List ℕ
take_exactly n xs = if leb n (length xs) then (some (take n xs), drop n xs) else (none, [])

take_exactly_zero : (xs : List ℕ) → take_exactly 0 xs ≡ (some [], xs)
unfolding take_exactly
take_exactly_zero xs = rw (le→leb 0 (length xs) (omega arith)) refl

take_exactly_nil : (n : ℕ) → take_exactly (suc n) [] ≡ (none, [])
unfolding take_exactly
take_exactly_nil n = rw (leb_of_lt 0 (suc n) (omega arith)) refl

take_exactly_cons :
    (n x : ℕ) (xs : List ℕ)
    → take_exactly (suc n) (x ∷ xs)
      ≡ (prepend (x ∷ []) (take_exactly n xs).0, (take_exactly n xs).1)
unfolding take_exactly
take_exactly_cons n x xs = elim (Bool-cases (leb n (length xs))) [
  | inl e ↦ let f : leb (suc n) (suc (length xs)) ≡ true = ground arith in rw (e, f) refl
  | inr e ↦ let f : leb (suc n) (suc (length xs)) ≡ false = ground arith in rw (e, f) refl
]

prepend-append :
    (xs ys : List ℕ) (o : Option (List ℕ)) → prepend xs (prepend ys o) ≡ prepend (xs ++ ys) o
prepend-append xs ys none = refl
prepend-append xs ys (some zs) = ap some (sym (append_assoc xs ys zs))

prepend-nil : (o : Option (List ℕ)) → prepend [] o ≡ o
prepend-nil none = refl
prepend-nil (some zs) = refl

-- Taking what has arrived, and the rest from what follows.
abbrev taken_on : ℕ → List ℕ → List ℕ → Option (List ℕ) × List ℕ
taken_on n xs ys = (
  prepend (take n xs) (take_exactly (n - length (take n xs)) (drop n xs ++ ys)).0,
  (take_exactly (n - length (take n xs)) (drop n xs ++ ys)).1,
)

take_exactly-append : (n : ℕ) (xs ys : List ℕ) → take_exactly n (xs ++ ys) ≡ taken_on n xs ys
take_exactly-append zero xs ys = rw (take_exactly_zero (xs ++ ys)) refl
take_exactly-append (suc n) [] ys =
    let same : suc n - 0 ≡ suc n = omega arith in rw (same, prepend-nil) refl
take_exactly-append (suc n) (x ∷ xs) ys =
    let t = take_exactly-append n xs ys in
    let less : suc n - length (x ∷ take n xs) ≡ n - length (take n xs) = omega arith in
    take_exactly_cons n x (xs ++ ys)
    ∙ ap (λ p. (prepend (x ∷ []) p.0, p.1)) t
    ∙ rw less (rw prepend-append refl)

-- A loop that has read `left` bytes of the stream, or met its end.
record Reads (left : ℕ) (socket : Socket) (r : Outcome (Option (List ℕ) × Socket)) : Type 0 where
  rest : Socket
  returns : r ≡ ok ((take_exactly left (stream socket)).0, rest)
  behind : stream rest ≡ (take_exactly left (stream socket)).1
  arrive : AllArrive rest

read_loop-Reads :
    (fuel left : ℕ) (socket : Socket)
    → left < fuel
    → AllArrive socket
    → Reads left socket (read_loop fuel left socket)
unfolding read_loop read
read_loop-Reads zero left socket lt h = absurd (omega arith)
read_loop-Reads (suc fuel) zero socket lt h = record {
  rest = socket;
  returns = rw (take_exactly_zero (stream socket)) refl;
  behind = rw (take_exactly_zero (stream socket)) refl;
  arrive = h;
}
read_loop-Reads (suc fuel) (suc left) [] lt h = record {
  rest = [];
  returns = rw (==_of_ne (suc left) 0 (omega arith), take_exactly_nil left) refl;
  behind = rw (take_exactly_nil left) refl;
  arrive = tt;
}
read_loop-Reads (suc fuel) (suc left) (failed ∷ socket) lt h = absurd h
read_loop-Reads (suc fuel) (suc left) (bytes b bs ∷ socket) lt h =
    let xs = b ∷ bs in
    let more = rest_of (drop (suc left) xs) socket in
    let less = suc left - length (take (suc left) xs) in
    let w =
      read_loop-Reads fuel less more (omega arith)
        (rest_of-AllArrive (drop (suc left) xs) socket h) in
    let e : take_exactly (suc left) (stream (bytes b bs ∷ socket)) ≡ (
      prepend (take (suc left) xs) (take_exactly less (stream more)).0,
      (take_exactly less (stream more)).1,
    ) =
      rw (stream-rest_of (drop (suc left) xs) socket)
        (take_exactly-append (suc left) xs (stream socket)) in
    record {
      rest = w.rest;
      returns =
          rw (==_of_ne (suc left) 0 (omega arith))
            (rw w.returns (ap (λ (p : Option (List ℕ) × List ℕ). ok (p.0, w.rest)) (sym e)));
      behind = w.behind ∙ ap (λ (p : Option (List ℕ) × List ℕ). p.1) (sym e);
      arrive = w.arrive;
    }
