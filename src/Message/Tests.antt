-- ===== src/Message/Tests.antt =====
-- A file size request and a compressed echo message as they arrive, and the theorems at them.
use multiplexing_server.Base.{ℕ, ◌≡◌, refl, some, List, [], ◌∷◌, ◌++◌, drop, ok, ◌>>=◌, arith}
use multiplexing_server.Codec.Compress.{compress}
use multiplexing_server.Codec.Compress.Laws.{encode, code_at}
use multiplexing_server.Codec.Tests.{plain, plain_from, plain-IsDict, plain-IsPrefixFree}
use multiplexing_server.Wire.{be_bytes}
use multiplexing_server.Message.{
  bytes, rest_of, full, malloc, has_payload, decompress_message, get_description,
}
use multiplexing_server.Message.Laws.{
  frame, header_byte, get_description-frame, get_description_split,
}
use multiplexing_server.Message.Compressed.{get_description-compress}

abbrev name : List ℕ
name = b'a' ∷ 0 ∷ []

get_description-frame_example :
    get_description 9
      (λ _. 170)
      plain
      (rest_of (frame (header_byte 4 0 1) name ++ (0x40 ∷ [])) (bytes 1 [] ∷ []))
    ≡ (decompress_message plain (record {
      type = 4;
      compression = 0;
      requires_compression = 1;
      length = 2;
      buffer = some name;
    })
        >>= λ m. ok (full m, bytes 0x40 [] ∷ bytes 1 [] ∷ []))
get_description-frame_example =
    get_description-frame 9 (λ _. 170) plain 4 0 1 name (0x40 ∷ []) (bytes 1 [] ∷ [])
      (unfold has_payload in refl) (omega arith) (omega arith) (omega arith)

get_description_split_run :
    get_description 9
      (λ _. 170)
      plain
      (rest_of (header_byte 4 0 0 ∷ (be_bytes 8 2 ++ (b'a' ∷ []))) (bytes 0 [] ∷ []))
    ≡ ok (
      full (record {
        type = 4;
        compression = 0;
        requires_compression = 0;
        length = 2;
        buffer = some ((b'a' ∷ []) ++ drop 1 (malloc (λ _. 170) 2 0));
      }),
      bytes 0 [] ∷ [],
    )
get_description_split_run =
    get_description_split 9 (λ _. 170) plain 4 0 2 0 (b'a' ∷ []) [] [] (unfold has_payload in refl)
      (omega arith) (omega arith) (omega arith) (omega arith)

get_description-compress_example :
    (compress (λ _. 255) plain (104 ∷ 105 ∷ []) >>= λ sent.
    get_description 9 (λ _. 170) plain (rest_of (frame (header_byte 0 1 0) sent ++ []) []))
    ≡ ok (
      full (record {
        type = 0;
        compression = 1;
        requires_compression = 0;
        length = 2;
        buffer = some (104 ∷ 105 ∷ []);
      }),
      [],
    )
unfolding plain plain_from encode code_at has_payload
get_description-compress_example =
    get_description-compress 9 (λ _. 170) (λ _. 255) plain 0 0 (104 ∷ 105 ∷ []) [] []
      (λ _. omega arith) plain-IsDict plain-IsPrefixFree (omega arith) (λ e. cc) (omega arith) refl
      (omega arith) refl
