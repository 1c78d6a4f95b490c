-- ===== src/Segments/Tests.antt =====
-- A file of ten bytes, sent over three connections, and the theorems of the transfer at it.
use multiplexing_server.Base.{
  ℕ, ◌^◌, ◌≤◌, ◌<◌, ◌≡◌, refl, false, inl, none, some, List, [], ◌∷◌, ok, fault, unfinished, length,
  All, if◌then◌else◌, ◌==◌, arith,
}
use multiplexing_server.Codec.Compress.Laws.{encode}
use multiplexing_server.Codec.Tests.{plain, plain-IsDict, plain-IsPrefixFree, plain-encode}
use multiplexing_server.Message.{Message}
use multiplexing_server.RequestList.{FileRequest}
use multiplexing_server.Response.{
  FileSystem, error_send, is_traversal, has_dots, has_slash, join_path,
}
use multiplexing_server.Segments.{
  Piece, dissect_file_request, split_range, write_pieces, child_send, parent_send,
}
use multiplexing_server.Segments.Plan.{Splits, split_range-Splits}
use multiplexing_server.Segments.Request.{
  request_payload, dissect_file_request-request_payload, dissect_file_request-short,
}
use multiplexing_server.Segments.Send.{segment, length-segment}
use multiplexing_server.Segments.Transfer.{Transfers, transfer}
use multiplexing_server.Segments.Failures.{
  parent_send_out_of_range, parent_send_wraps, split_range_race,
}
use multiplexing_server.Segments.Confined.{Agree, transfer-confined}

abbrev pub file : List ℕ
file = 0 ∷ 1 ∷ 2 ∷ 3 ∷ 4 ∷ 5 ∷ 6 ∷ 7 ∷ 8 ∷ 9 ∷ []

-- A file system in which every path is this file.
abbrev pub files : FileSystem
files path = some file

-- The same for every path but that of a file in another directory.
abbrev outside_empty : FileSystem
outside_empty [] = none
outside_empty (b ∷ path) = if b == b'/' then some file else none

agree : Agree files outside_empty []
unfolding Agree join_path
agree name h = refl

abbrev pub request : ℕ → ℕ → FileRequest
request offset len = record {
  session_id = 77;
  offset = offset;
  length = len;
  file_name = b'a' ∷ [];
  num_connect = 0;
  next = none;
}

pub fits : (p : Piece) → length (encode plain (segment 77 file p)) < 2 ^ 31
fits p = omega (arith, plain-encode (segment 77 file p), length-segment 77 file p)

pub plain_name : is_traversal (b'a' ∷ []) ≡ false
unfolding is_traversal has_dots has_slash
plain_name = refl

split_three : split_range 2 2 1 8 ≡ (
  record { offset = 1; length = 3 } ∷ record { offset = 4; length = 3 } ∷ [],
  record { offset = 7; length = 2 },
)
unfolding split_range write_pieces
split_three = refl

transfer_example :
    Transfers
      (λ _. 170)
      (λ _. 255)
      plain
      (λ _. omega arith)
      plain-IsDict
      plain-IsPrefixFree
      1
      (0 ∷ 1 ∷ [])
      files
      (b'.' ∷ [])
      file
      (request 1 8)
transfer_example =
    transfer (λ _. 170) (λ _. 255) plain (λ _. omega arith) plain-IsDict plain-IsPrefixFree 1
      (0 ∷ 1 ∷ []) files (b'.' ∷ []) file (request 1 8) plain_name refl (omega arith) (omega arith)
      fits (omega arith)

split_range-Splits_example :
    let (pieces, parent) = split_range 2 2 1 8 in Splits 2 1 8 pieces parent
split_range-Splits_example = split_range-Splits 2 1 8 (omega arith)

split_range_race_example :
    let (pieces, parent) = split_range 0 1 1 8 in
    All (λ p. 8 ≤ p.length) pieces × (9 ≤ parent.offset) × (parent.length ≡ 8)
split_range_race_example = split_range_race 1 1 8 (omega arith) (omega arith)

parent_send_out_of_range_run :
    (parent_send (λ _. 170) (λ _. 255) plain 0 files [] (request 5 6) 1 1 ≡ ok (error_send, []))
    × (child_send (λ _. 170) (λ _. 255) plain 0 files [] (request 5 6) [] ≡ unfinished)
parent_send_out_of_range_run =
    parent_send_out_of_range (λ _. 170) (λ _. 255) plain files [] file (request 5 6) plain_name refl
      0 0 1 1 (omega arith) (omega arith)

parent_send_wraps_example :
    parent_send (λ _. 170) (λ _. 255) plain 0 files [] (request 10 (18446744073709551611)) 0 0
    ≡ fault
parent_send_wraps_example =
    parent_send_wraps (λ _. 170) (λ _. 255) plain files [] file (request 10 (18446744073709551611))
      plain_name refl 0 (omega arith) (omega arith) (omega arith) (omega arith) (omega arith)

abbrev request_message : Message
request_message = record {
  type = 6;
  compression = 0;
  requires_compression = 0;
  length = 22;
  buffer = some (request_payload 77 1 8 (b'a' ∷ []) []);
}

dissect_file_request-request_payload_example :
    dissect_file_request 5 none request_message ≡ ok (record (request 1 8) { num_connect = 5 })
dissect_file_request-request_payload_example =
    dissect_file_request-request_payload 5 none 77 1 8 (b'a' ∷ []) [] request_message (omega arith)
      (omega arith) (omega arith) ((λ e. cc), tt) refl

dissect_file_request-short_run :
    dissect_file_request 5 none (record request_message { buffer = some (1 ∷ 2 ∷ []) }) ≡ fault
dissect_file_request-short_run =
    dissect_file_request-short 5 none (record request_message { buffer = some (1 ∷ 2 ∷ []) })
      (inl (omega arith))

transfer-confined_example :
    (parent_send (λ _. 170) (λ _. 255) plain 0 files [] (request 1 8) 2 2
      ≡ parent_send (λ _. 170) (λ _. 255) plain 0 outside_empty [] (request 1 8) 2 2)
    × (child_send (λ _. 170) (λ _. 255) plain 0 files [] (request 1 8) []
        ≡ child_send (λ _. 170) (λ _. 255) plain 0 outside_empty [] (request 1 8) [])
transfer-confined_example =
    transfer-confined (λ _. 170) (λ _. 255) plain 0 2 2 files outside_empty [] (request 1 8) []
      agree
