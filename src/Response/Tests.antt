-- ===== src/Response/Tests.antt =====
-- A directory of three entries and a file of four bytes, and the theorems of the handlers at them.
use multiplexing_server.Base.{
  ℕ, ◌≤◌, ◌<◌, fault, ◌≡◌, ◌≢◌, ◌⊎◌, inl, refl, ap, true, false, none, some, List, [], ◌∷◌, length,
  ok, ◌>>=◌, if◌then◌else◌, ◌==◌, All, arith,
}
use multiplexing_server.Codec.Decompress.{decompress}
use multiplexing_server.Codec.Compress.{compress}
use multiplexing_server.Codec.Compress.Laws.{encode, Packs, compress-Packs}
use multiplexing_server.Codec.Tests.{plain, plain-IsDict, plain-IsPrefixFree, plain-encode}
use multiplexing_server.Wire.{be_bytes, length-be_bytes}
use multiplexing_server.Message.{Message}
use multiplexing_server.Message.Laws.{frame}
use multiplexing_server.Response.{
  sends, frees_path, sent, FileSystem, Entry, is_traversal, has_dots, has_slash, join_path,
  any_regular, listing, directory_buffer, echo, file_size_response, directory_send,
}
use multiplexing_server.Response.Echo.{echo_plain, echo_compressing}
use multiplexing_server.Response.FileSize.{file_size_response-size, file_size_response-confined}
use multiplexing_server.Response.Directory.{
  IsFileName, received_names, regular_names, received_names-directory_buffer, directory_send-frame,
}

abbrev one : ℕ
one = 1

abbrev request : ℕ → List ℕ → Message
request r buffer = record {
  type = 4;
  compression = 0;
  requires_compression = r;
  length = length buffer;
  buffer = some buffer;
}

abbrev files : FileSystem
files path = some (1 ∷ 2 ∷ 3 ∷ 4 ∷ [])

-- The same for a path that starts with the directory and a `/`.
abbrev files_below : FileSystem
files_below [] = none
files_below (b ∷ path) = if b == b'/' then some (1 ∷ 2 ∷ 3 ∷ 4 ∷ []) else none

plain_name : is_traversal (b'a' ∷ []) ≡ false
unfolding is_traversal has_dots has_slash
plain_name = refl

parent_name : is_traversal (b'.' ∷ b'.' ∷ b'a' ∷ []) ≡ true
unfolding is_traversal has_dots has_slash
parent_name = refl

request_echoed :
    echo (λ _. 255) plain (request 0 (5 ∷ 6 ∷ []))
    ≡ ok (sends (frame 0x10 (5 ∷ 6 ∷ [])) ∷ [], 5 ∷ 6 ∷ [])
request_echoed = echo_plain (λ _. 255) plain (request 0 (5 ∷ 6 ∷ [])) (inl refl)

-- Two bytes compressed by the plain dictionary, which are three.
packed :
    (result : List ℕ) × (compress (λ _. 255) plain (5 ∷ 6 ∷ []) ≡ ok result)
    × Packs (encode plain (5 ∷ 6 ∷ [])) result
packed =
    compress-Packs (λ _. 255) plain (5 ∷ 6 ∷ []) (λ _. omega arith) plain-IsDict (omega arith)
      (omega arith) (omega (arith, plain-encode (5 ∷ 6 ∷ [])))

echo_compressing_run :
    (length packed.0 ≤ 2
      → echo (λ _. 255) plain (request 1 (5 ∷ 6 ∷ []))
        ≡ ok (sends (frame 0x18 packed.0) ∷ [], packed.0))
    × (2 < length packed.0 → echo (λ _. 255) plain (request 1 (5 ∷ 6 ∷ [])) ≡ fault)
echo_compressing_run =
    echo_compressing (λ _. 255) plain (request 1 (5 ∷ 6 ∷ [])) packed.0 refl refl packed.1

file_size_response-size_example :
    (header : ℕ) × (payload : List ℕ) × (file_size_response
        (λ _. 255)
        plain
        files
        []
        (request 1 (b'a' ∷ 0 ∷ []))
      ≡ ok (frees_path ∷ sends (frame header payload) ∷ frees_path ∷ []))
    × (((one ≡ 1) × (header ≡ 0x58) × (decompress plain payload ≡ ok (be_bytes 8 4)))
        ⊎ ((one ≢ 1) × (header ≡ 0x50) × (payload ≡ be_bytes 8 4)))
file_size_response-size_example =
    file_size_response-size (λ _. 255) plain files [] (b'a' ∷ []) [] (1 ∷ 2 ∷ 3 ∷ 4 ∷ [])
      (request 1 (b'a' ∷ 0 ∷ [])) (λ _. omega arith) plain-IsDict plain-IsPrefixFree ((λ e. cc), tt)
      refl plain_name refl (omega (arith, plain-encode (be_bytes 8 4), length-be_bytes 8 4))

file_size_response-confined_example :
    file_size_response (λ _. 255) plain files [] (request 1 (b'a' ∷ 0 ∷ []))
    ≡ file_size_response (λ _. 255) plain files_below [] (request 1 (b'a' ∷ 0 ∷ []))
unfolding join_path
file_size_response-confined_example =
    file_size_response-confined (λ _. 255) plain files files_below [] (request 1 (b'a' ∷ 0 ∷ []))
      (λ name h. refl)

abbrev entries : List Entry
entries =
    record { is_regular = true; name = b'a' ∷ [] }
    ∷ record { is_regular = false; name = b'.' ∷ [] }
    ∷ record { is_regular = true; name = b'b' ∷ b'c' ∷ [] }
    ∷ []

entries-names : All (λ (e : Entry). IsFileName e.name) entries
entries-names = (
  ((λ e. cc), (((λ e. cc), omega arith), tt)),
  (
    ((λ e. cc), (((λ e. cc), omega arith), tt)),
    (((λ e. cc), (((λ e. cc), omega arith), (((λ e. cc), omega arith), tt))), tt),
  ),
)

received_names-directory_buffer_run :
    received_names (directory_buffer (some entries)) ≡ regular_names entries
received_names-directory_buffer_run = received_names-directory_buffer entries entries-names

names : regular_names entries ≡ (b'a' ∷ []) ∷ (b'b' ∷ b'c' ∷ []) ∷ []
unfolding regular_names
names = refl

buffer_of_entries : directory_buffer (some entries) ≡ b'a' ∷ 0 ∷ b'b' ∷ b'c' ∷ 0 ∷ []
unfolding directory_buffer any_regular listing
buffer_of_entries = refl

directory_send-frame_example :
    (header : ℕ) × (payload : List ℕ) × ((directory_send
          (λ _. 255)
          plain
          (some entries)
          (request 1 [])
        >>= λ events. ok (sent events))
      ≡ ok (frame header payload))
    × (((one ≡ 1)
          × (header ≡ 0x38)
          × (decompress plain payload ≡ ok (directory_buffer (some entries))))
        ⊎ ((one ≢ 1) × (header ≡ 0x30) × (payload ≡ directory_buffer (some entries))))
directory_send-frame_example =
    directory_send-frame (λ _. 255) plain entries (request 1 []) (λ _. omega arith) plain-IsDict
      plain-IsPrefixFree entries-names
      (omega (arith, plain-encode (directory_buffer (some entries)), ap length buffer_of_entries))
