-- ===== src/Optimized/Reading/Arrivals.antt =====
-- A connection that does not fail still does not behind a message that was read from it.
use multiplexing_server.Base.{
  ℕ, zero, suc, ◌-◌, ◌/◌, ◌%◌, ◌^◌, ◌≡◌, inl, inr, Bool-cases, ==_of_ne, ◌||◌, not, Option, none,
  some, List, [], ◌∷◌, Outcome, ok, fault, exited, unfinished, ◌>>=◌, Ends, Ends-bind, Ends-ok,
  ok_inj, >>=-eq-ok, ap, ◌∙◌, Option-cases, length, take, drop, ltb, ◌==◌, arith,
}
use multiplexing_server.Codec.Dict.{Dict}
use multiplexing_server.Message.{
  bytes, failed, Socket, read, rest_of, Message, Description, closed, full, has_payload,
  decompress_message,
}
use multiplexing_server.Optimized.Reading.{
  read_loop, read_full, read_whole, read_payload_optimized, get_description_optimized,
}
use multiplexing_server.Wire.{of_le, bswap}
use multiplexing_server.Optimized.Reading.Stream.{stream, AllArrive, rest_of-AllArrive}
use multiplexing_server.Optimized.Reading.Stream.Described.{
  received, describe_stream, get_description_optimized-describe_stream,
}

abbrev pub Still {ℓ} : {A : Type ℓ} → A × Socket → Type 0
Still p = AllArrive p.1

read_loop-Still :
    (fuel left : ℕ) (socket : Socket) → AllArrive socket → Ends Still (read_loop fuel left socket)
unfolding read_loop read
read_loop-Still zero left socket h = tt
read_loop-Still (suc fuel) zero socket h = h
read_loop-Still (suc fuel) (suc left) [] h = rw (==_of_ne (suc left) 0 (omega arith)) tt
read_loop-Still (suc fuel) (suc left) (failed ∷ socket) h = absurd h
read_loop-Still (suc fuel) (suc left) (bytes b bs ∷ socket) h =
    let more = rest_of (drop (suc left) (b ∷ bs)) socket in
    let less = suc left - length (take (suc left) (b ∷ bs)) in
    let w =
      read_loop-Still fuel less more (rest_of-AllArrive (drop (suc left) (b ∷ bs)) socket h) in
    rw (==_of_ne (suc left) 0 (omega arith))
      (Ends-bind Still Still (read_loop fuel less more) _ w (λ p k. k))

read_whole-Still :
    (size : ℕ) (socket : Socket) → AllArrive socket → Ends Still (read_whole size socket)
unfolding read_whole read_full
read_whole-Still size socket h = elim (Bool-cases (ltb 0 size)) [
  | inl e ↦ rw e (
      Ends-bind Still Still (read_loop (suc size) size socket) _
        (read_loop-Still (suc size) size socket h) (λ p k. k))
  | inr e ↦ rw e h
]

-- What comes of the buffer.
finish_payload :
    (dict : Dict) (m : Option (List ℕ) → Message) (payload : Option (Option (List ℕ)))
    (socket : Socket)
    → AllArrive socket
    → Ends Still (elim payload as (λ _. Outcome (Description × Socket)) [
      | none ↦ ok (closed, socket)
      | some buffer ↦ decompress_message dict (m buffer) >>= λ m'. ok (full m', socket)
    ])
finish_payload dict m none socket h = h
finish_payload dict m (some buffer) socket h = behind (decompress_message dict (m buffer))
  where
    behind : (o : Outcome Message) → Ends Still (o >>= λ m'. ok (full m', socket))
    behind (ok m') = h
    behind fault = tt
    behind exited = tt
    behind unfinished = tt

read_payload_optimized-Still :
    (dict : Dict) (header : ℕ) (socket : Socket)
    → AllArrive socket
    → Ends Still (read_payload_optimized dict header socket)
unfolding read_payload_optimized read_full
read_payload_optimized-Still dict header socket h =
    Ends-bind Still Still (read_loop 9 8 socket) _ (read_loop-Still 9 8 socket h) (λ p k.
      elim (Option-cases p.0) [
        | inl e ↦ rw e k
        | inr (len, e) ↦
            let size = bswap 8 (of_le len) in
            rw e (
              Ends-bind Still Still (read_whole size p.1) _ (read_whole-Still size p.1 k)
                (λ q k'. finish_payload dict (received header size) q.0 q.1 k'))
      ])

pub get_description_optimized-Still :
    (dict : Dict) (socket : Socket)
    → AllArrive socket
    → Ends Still (get_description_optimized dict socket)
unfolding get_description_optimized read
get_description_optimized-Still dict [] h = tt
get_description_optimized-Still dict (failed ∷ socket) h = absurd h
get_description_optimized-Still dict (bytes b bs ∷ socket) h =
    let type = b / 2 ^ 4 % 16 in
    let k = rest_of-AllArrive bs socket h in
    elim (Bool-cases ((type == 8) || not (has_payload type))) [
      | inl e ↦ rw e k
      | inr e ↦ rw e (read_payload_optimized-Still dict b (rest_of bs socket) k)
    ]

-- What a connection that does not fail gives when its stream starts with a message.
pub record Describes (dict : Dict) (socket : Socket) (d : Description) (rest : List ℕ)
    : Type 0 where
  pub socket' : Socket
  pub returns : get_description_optimized dict socket ≡ ok (d, socket')
  pub behind : stream socket' ≡ rest
  pub arrive : AllArrive socket'

pub get_description_optimized-Describes :
    (dict : Dict) (socket : Socket) (d : Description) (rest : List ℕ)
    → AllArrive socket
    → describe_stream dict (stream socket) ≡ ok (d, rest)
    → Describes dict socket d rest
get_description_optimized-Describes dict socket d rest h e =
    let g : Description × Socket → Outcome (Description × List ℕ) = λ p. ok (p.0, stream p.1) in
    let ((d', socket'), r, q) =
      >>=-eq-ok (get_description_optimized dict socket) g
        (get_description_optimized-describe_stream dict socket h ∙ e) in
    let same : (d', stream socket') ≡ (d, rest) = ok_inj q in
    record {
      socket' = socket';
      returns = r ∙ ap (λ x. ok (x, socket')) (ap (λ (p : Description × List ℕ). p.0) same);
      behind = ap (λ (p : Description × List ℕ). p.1) same;
      arrive =
          Ends-ok Still (get_description_optimized dict socket) (d', socket')
            (get_description_optimized-Still dict socket h) r;
    }
