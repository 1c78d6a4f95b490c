-- ===== src/Optimized/Reading.antt =====
-- `read_full` and `get_description_optimized` of message_handling_optimized.c. An allocation for a
-- payload does not fail.
pub mod Stream
pub mod Frames
pub mod Arrivals
use multiplexing_server.Base.{
  ℕ, zero, suc, ◌+◌, ◌-◌, ◌/◌, ◌%◌, ◌^◌, Bool, true, false, ◌||◌, not, Option, none, some, List, [],
  ◌∷◌, ◌++◌, Outcome, ok, unfinished, ◌>>=◌, length, ltb, ◌==◌, if◌then◌else◌,
}
use multiplexing_server.Codec.Dict.{Dict}
use multiplexing_server.Wire.{of_le, bswap}
use multiplexing_server.Message.{
  Socket, ReadResult, error, got, read, Message, Description, closed, bare, full, has_payload,
  decompress_message,
}

-- The bytes of several reads together; none if one of them failed or met the end of the stream.
abbrev pub prepend : List ℕ → Option (List ℕ) → Option (List ℕ)
prepend bs none = none
prepend bs (some rest) = some (bs ++ rest)

-- `while (total < count)`, with `left` for `count - total`. `none` is a result of zero or less.
pub read_loop : ℕ → ℕ → Socket → Outcome (Option (List ℕ) × Socket)
read_loop zero left socket = unfinished
read_loop (suc fuel) left socket =
    if left == 0
    then ok (some [], socket)
    else (let (r, socket') = read left socket in
        elim r as (λ _. Outcome (Option (List ℕ) × Socket)) [
          | error ↦ ok (none, socket')
          | got bs ↦ elim bs as (λ _. Outcome (Option (List ℕ) × Socket)) [
            | [] ↦ ok (none, socket')
            | b ∷ more ↦ do
              (rest, socket'') ← read_loop fuel (left - length (b ∷ more)) socket'
              ok (prepend (b ∷ more) rest, socket'')
          ]
        ])

-- Each read gives a byte at least or ends the loop.
pub read_full : ℕ → Socket → Outcome (Option (List ℕ) × Socket)
read_full count socket = read_loop (suc count) count socket

-- `if (msg->length > 0)`: the payload, `none` if the message is given up.
pub read_whole : ℕ → Socket → Outcome (Option (Option (List ℕ)) × Socket)
read_whole size socket =
    if ltb 0 size
    then (do
      (payload, socket') ← read_full size socket
      ok (elim payload [ none ↦ none | some bs ↦ some (some bs) ], socket'))
    else ok (some none, socket)

-- What follows once the type is known to have a payload.
pub read_payload_optimized : Dict → ℕ → Socket → Outcome (Description × Socket)
read_payload_optimized dict header socket = do
  (len, socket') ← read_full 8 socket
  elim len [
    | none ↦ ok (closed, socket')
    | some len_bytes ↦ do
      let size = bswap 8 (of_le len_bytes)
      (payload, socket'') ← read_whole size socket'
      elim payload [
        | none ↦ ok (closed, socket'')
        | some buffer ↦ do
          m ← decompress_message dict (record {
            type = header / 2 ^ 4 % 16;
            compression = header / 2 ^ 3 % 2;
            requires_compression = header / 2 ^ 2 % 2;
            length = size;
            buffer = buffer;
          })
          ok (full m, socket'')
      ]
  ]

-- `closed` stands for the null pointer, of a message that ends too early too.
pub get_description_optimized : Dict → Socket → Outcome (Description × Socket)
get_description_optimized dict socket =
    let (r, socket') = read 1 socket in
    elim r [
      | error ↦ ok (closed, socket')
      | got bs ↦ elim bs [
        | [] ↦ ok (closed, socket')
        | header ∷ _ ↦
            let type = header / 2 ^ 4 % 16 in
            if (type == 8) || not (has_payload type)
            then ok (bare type, socket')
            else read_payload_optimized dict header socket'
      ]
    ]
