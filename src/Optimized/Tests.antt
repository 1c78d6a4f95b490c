-- ===== src/Optimized/Tests.antt =====
-- A message in three pieces, an answer in pieces of two bytes, and the theorems of the optimised
-- handlers at them.
use multiplexing_server.Base.{
  ℕ, ◌+◌, ◌≤◌, ◌<◌, ◌^◌, ◌≡◌, refl, sym, ◌∙◌, length, true, false, some, List, [], ◌∷◌, ◌++◌, ok,
  arith,
}
use multiplexing_server.Codec.Tests.{plain}
use multiplexing_server.Wire.{be_bytes}
use multiplexing_server.Message.{bytes, Socket, rest_of, Message, has_payload, get_description}
use multiplexing_server.Message.Laws.{frame, header_byte}
use multiplexing_server.Response.{
  Event, sent, error_send, Entry, listing, echo, file_size_response, directory_send, c_string,
}
use multiplexing_server.Response.FileSize.{c_string-append}
use multiplexing_server.Segments.Tests.{file, files, request, plain_name}
use multiplexing_server.Segments.Send.{segment}
use multiplexing_server.Optimized.Reading.{get_description_optimized}
use multiplexing_server.Optimized.Reading.Stream.{stream}
use multiplexing_server.Optimized.Reading.Stream.Described.{
  with_stream, describe_stream, get_description_optimized-describe_stream,
}
use multiplexing_server.Optimized.Reading.Frames.{get_description_optimized-get_description}
use multiplexing_server.Optimized.Handlers.{
  send_all, echo_optimized, file_size_response_optimized, directory_send_optimized,
}
use multiplexing_server.Optimized.Handlers.Sending.{Sent, send_all-Sent}
use multiplexing_server.Optimized.Handlers.Answers.{
  reaches, echo_reaches, echo_optimized-echo, file_size_response_optimized-file_size_response,
  directory_send_optimized-directory_send,
}
use multiplexing_server.Optimized.Transfer.{parent_send_optimized}
use multiplexing_server.Optimized.Transfer.Laws.{
  range_of, range_swapped, parent_send_optimized-segment, parent_send_optimized_outside,
}

-- An echo of two bytes, cut inside of its length and its payload.
abbrev pieces : Socket
pieces = bytes 0 (0 ∷ 0 ∷ []) ∷ bytes 0 (0 ∷ 0 ∷ 0 ∷ 0 ∷ 2 ∷ 5 ∷ []) ∷ bytes 6 (7 ∷ []) ∷ []

get_description_optimized-describe_stream_run :
    with_stream (get_description_optimized plain pieces) ≡ describe_stream plain (stream pieces)
get_description_optimized-describe_stream_run =
    get_description_optimized-describe_stream plain pieces tt

pieces_stream : stream pieces ≡ frame (header_byte 0 0 0) (5 ∷ 6 ∷ []) ++ 7 ∷ []
unfolding be_bytes
pieces_stream = refl

get_description_optimized-get_description_example :
    with_stream (get_description_optimized plain pieces)
    ≡ with_stream (get_description 255 (λ _. 170) plain (rest_of (stream pieces) []))
unfolding has_payload
get_description_optimized-get_description_example =
    get_description_optimized-get_description 255 (λ _. 170) plain pieces 0 0 0 (5 ∷ 6 ∷ [])
      (7 ∷ []) tt pieces_stream refl (omega arith) (omega arith) (omega arith)

send_all-Sent_run : Sent (λ _. 2) (1 ∷ 2 ∷ 3 ∷ []) (send_all (λ _. 2) (1 ∷ 2 ∷ 3 ∷ []))
send_all-Sent_run = send_all-Sent (λ _. 2) (1 ∷ 2 ∷ 3 ∷ [])

abbrev plain_request : List ℕ → Message
plain_request buffer = record {
  type = 4;
  compression = 0;
  requires_compression = 0;
  length = 2;
  buffer = some buffer;
}

echo_optimized-echo_run :
    echo_reaches (echo_optimized (λ _. 2) (λ _. 255) plain (plain_request (5 ∷ 6 ∷ [])))
    ≡ echo_reaches (echo (λ _. 255) plain (plain_request (5 ∷ 6 ∷ [])))
echo_optimized-echo_run =
    echo_optimized-echo (λ _. 2) (λ _. 255) plain (plain_request (5 ∷ 6 ∷ [])) (λ call e. cc)

short_name : (name : List ℕ) → c_string (b'a' ∷ 0 ∷ []) ≡ ok name → 0 + length name + 2 ≤ 4096
short_name name e =
    let q : ok (b'a' ∷ []) ≡ ok name = sym (c_string-append (b'a' ∷ []) [] ((λ z. cc), tt)) ∙ e in
    let same : b'a' ∷ [] ≡ name = ground arith in rw (← same) (omega arith)

file_size_response_optimized-file_size_response_run :
    reaches (
      file_size_response_optimized
        (λ _. 2)
        (λ _. 255)
        plain
        files
        []
        (plain_request (b'a' ∷ 0 ∷ [])))
    ≡ reaches (file_size_response (λ _. 255) plain files [] (plain_request (b'a' ∷ 0 ∷ [])))
file_size_response_optimized-file_size_response_run =
    file_size_response_optimized-file_size_response (λ _. 2) (λ _. 255) plain files []
      (plain_request (b'a' ∷ 0 ∷ [])) (λ call e. cc) (λ e. cc) short_name

abbrev entries : List Entry
entries =
    record { is_regular = true; name = b'a' ∷ [] }
    ∷ record { is_regular = false; name = b'.' ∷ [] }
    ∷ record { is_regular = true; name = b'b' ∷ b'c' ∷ [] }
    ∷ []

names_length : length (listing entries) < 2 ^ 31
unfolding listing
names_length = omega arith

directory_send_optimized-directory_send_example :
    reaches (directory_send_optimized (λ _. 8) (λ _. 255) plain (some entries) (plain_request []))
    ≡ reaches (directory_send (λ _. 255) plain (some entries) (plain_request []))
directory_send_optimized-directory_send_example =
    directory_send_optimized-directory_send (λ _. 8) (λ _. 255) plain entries (plain_request [])
      (λ call e. cc) (omega arith) (λ e. cc) names_length

parent_send_optimized-segment_example :
    (events : List Event) × (parent_send_optimized
        (λ _. 8)
        (λ _. 170)
        (λ _. 255)
        plain
        0
        files
        []
        (request 1 8)
      ≡ ok (events, range_swapped (request 1 8) ∷ []))
    × (sent events ≡ frame 0x70 (segment 77 file (range_of (request 1 8))))
parent_send_optimized-segment_example =
    parent_send_optimized-segment (λ _. 8) (λ _. 170) (λ _. 255) plain files [] file (request 1 8)
      plain_name refl 0 (λ e. cc) (omega arith) (omega arith) (omega arith) (λ call e. cc)
      (omega arith)

parent_send_optimized_outside_example :
    parent_send_optimized (λ _. 2) (λ _. 170) (λ _. 255) plain 1 files [] (request 4 7)
    ≡ ok (error_send, [])
parent_send_optimized_outside_example =
    parent_send_optimized_outside (λ _. 2) (λ _. 170) (λ _. 255) plain files [] file (request 4 7)
      plain_name refl 1 (omega arith) (omega arith) (omega arith) (omega arith)
