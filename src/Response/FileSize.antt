-- ===== src/Response/FileSize.antt =====
-- What `file_size_response` answers, which files its answer can depend on, and when it frees `path`.
use multiplexing_server.Base.{
  fault, ℕ, ◌^◌, ◌<◌, ◌≡◌, ◌≢◌, ◌⊎◌, inl, inr, refl, ap, true, false, Bool-cases, some, List, [],
  ◌∷◌, ◌++◌, ok, >>=-cong, ◌==◌, ==_of_ne, length, All, arith,
}
use multiplexing_server.Codec.Dict.{Dict, IsDict, IsPrefixFree}
use multiplexing_server.Codec.Compress.Laws.{encode, length-encode, compress-Packs}
use multiplexing_server.Codec.Decompress.{decompress}
use multiplexing_server.Codec.Decompress.Laws.{decompress-Packs}
use multiplexing_server.Wire.{be_bytes, be_bytes-Byte, length-be_bytes, le_bytes-bswap}
use multiplexing_server.Message.{Message, contents}
use multiplexing_server.Message.Laws.{frame}
use multiplexing_server.Response.{
  sends, frees_path, c_string, has_dots, has_slash, is_traversal, join_path, FileSystem,
  file_size_response,
}
use multiplexing_server.Response.Echo.{container-frame}

-- A buffer that holds a C string.
pub c_string-append :
    (name rest : List ℕ) → All (λ b. b ≢ 0) name → c_string (name ++ 0 ∷ rest) ≡ ok name
unfolding c_string
c_string-append [] rest h = refl
c_string-append (b ∷ name) rest h =
    rw (==_of_ne b 0 h.0, c_string) (rw (c_string-append name rest h.1) refl)

-- A buffer in which no byte ends the string.
pub c_string-fault : (bs : List ℕ) → All (λ b. b ≢ 0) bs → c_string bs ≡ fault
unfolding c_string
c_string-fault [] h = refl
c_string-fault (b ∷ bs) h = rw (==_of_ne b 0 h.0, c_string) (rw (c_string-fault bs h.1) refl)

-- Of a file that exists, under a name that passes the checks: a client that asks for no
-- compression is sent the size in network order, and one that asks for it a payload that
-- `decompress` makes the size of, over a prefix-free dictionary that codes the size in fewer than
-- 2^31 bits. In both cases `path` is freed before the answer and a second time behind it.
pub file_size_response-size :
    (junk : ℕ → ℕ) (dict : Dict) (files : FileSystem) (directory name rest file : List ℕ)
    (m : Message)
    → ((i : ℕ) → junk i < 256)
    → IsDict dict
    → IsPrefixFree dict
    → All (λ b. b ≢ 0) name
    → m.buffer ≡ some (name ++ 0 ∷ rest)
    → is_traversal name ≡ false
    → files (join_path directory name) ≡ some file
    → length (encode dict (be_bytes 8 (length file))) < 2 ^ 31
    → (header : ℕ) × (payload : List ℕ) × (file_size_response junk dict files directory m
        ≡ ok (frees_path ∷ sends (frame header payload) ∷ frees_path ∷ []))
      × (((m.requires_compression ≡ 1)
            × (header ≡ 0x58)
            × (decompress dict payload ≡ ok (be_bytes 8 (length file))))
          ⊎ ((m.requires_compression ≢ 1) × (header ≡ 0x50) × (payload ≡ be_bytes 8 (length file))))
unfolding file_size_response
file_size_response-size junk dict files directory name rest file m hj d f hn hb ht hf lt =
    let size = be_bytes 8 (length file) in
    let (result, e, p) =
      compress-Packs junk dict size hj d (be_bytes-Byte 8 (length file))
        (omega (arith, length-encode dict size d f (be_bytes-Byte 8 (length file)), lt)) lt in
    let ne : size ≢ [] = λ z. omega (arith, ap length z, length-be_bytes 8 (length file)) in
    let back = decompress-Packs dict size result d f (be_bytes-Byte 8 (length file)) ne lt p in
    elim (Bool-cases (m.requires_compression == 1)) [
      | inl g ↦ (
        0x58,
        result,
        rw hb (
            rw (c_string-append name rest hn) (
              rw (ht, hf, g)
                (rw (le_bytes-bswap 8 (length file))
                  (rw e (rw (container-frame 0x58 result) refl))))),
        inl (ground arith, refl, back),
      )
      | inr g ↦ (
        0x50,
        size,
        rw hb (
            rw (c_string-append name rest hn) (
              rw (ht, hf, g)
                (rw (le_bytes-bswap 8 (length file)) (rw (container-frame 0x50 size) refl)))),
        inr (ground arith, refl, refl),
      )
    ]

-- A name with no `/` in it and no two dots in a row.
pub IsPlainName : List ℕ → Type 0
IsPlainName name =
    (All (λ b. b ≢ b'/') name) × ((before after : List ℕ) → name ≢ before ++ b'.' ∷ b'.' ∷ after)

has_slash_lem : (name : List ℕ) → has_slash name ≡ false → All (λ b. b ≢ b'/') name
unfolding has_slash
has_slash_lem [] h = tt
has_slash_lem (b ∷ name) h = (ground arith, has_slash_lem name (ground arith))

has_dots-append : (before after : List ℕ) → has_dots (before ++ b'.' ∷ b'.' ∷ after) ≡ true
unfolding has_dots
has_dots-append [] after = refl
has_dots-append (a ∷ []) after = ground arith
has_dots-append (a ∷ b ∷ before) after =
    let rest = has_dots-append (b ∷ before) after in ground (arith, rest)

pub is_traversal_lem : (name : List ℕ) → is_traversal name ≡ false → IsPlainName name
unfolding is_traversal IsPlainName
is_traversal_lem name h = (
  has_slash_lem name (ground arith),
  λ before after e. absurd (ground (arith, has_dots-append before after, ap has_dots e)),
)

-- The answer is the same over two file systems that agree on the files whose path is the
-- directory, a `/`, and a name with no `/` and no two dots in a row.
pub file_size_response-confined :
    (junk : ℕ → ℕ) (dict : Dict) (files files' : FileSystem) (directory : List ℕ) (m : Message)
    → ((name : List ℕ)
        → IsPlainName name
        → files (join_path directory name) ≡ files' (join_path directory name))
    → file_size_response junk dict files directory m
      ≡ file_size_response junk dict files' directory m
unfolding file_size_response
file_size_response-confined junk dict files files' directory m h =
    >>=-cong (c_string (contents m.buffer)) _ _ (λ name. elim (Bool-cases (is_traversal name)) [
      | inl e ↦ rw e refl
      | inr e ↦ rw e (rw (h name (is_traversal_lem name e)) refl)
    ])
