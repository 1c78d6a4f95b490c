-- ===== src/Response/Directory.antt =====
-- What `directory_send` sends, and how a client finds the names in it.
use multiplexing_server.Base.{
  ℕ, ◌^◌, ◌<◌, ◌≡◌, ◌≢◌, ◌⊎◌, inl, inr, refl, ap, ap₂, sym, ◌∙◌, true, false, Bool-cases, some,
  List, [], ◌∷◌, ◌++◌, append-nil, ok, ◌>>=◌, ◌==◌, ==_of_ne, if◌then◌else◌, length, leb_of_lt, All,
  arith, All-append, All-mono,
}
use multiplexing_server.Codec.Dict.{Dict, IsDict, IsPrefixFree, IsByte}
use multiplexing_server.Codec.Compress.Laws.{encode, length-encode, compress-Packs}
use multiplexing_server.Codec.Decompress.{decompress}
use multiplexing_server.Codec.Decompress.Laws.{decompress-Packs}
use multiplexing_server.Wire.{bswap, le_bytes, le_bytes-bswap}
use multiplexing_server.Message.{Message}
use multiplexing_server.Message.Laws.{frame}
use multiplexing_server.Response.{
  sends, sent, Entry, listing, any_regular, directory_buffer, directory_send,
}

-- The zero-terminated strings that follow each other in a buffer.
abbrev pub push_byte : ℕ → List (List ℕ) → List (List ℕ)
push_byte b [] = (b ∷ []) ∷ []
push_byte b (s ∷ ss) = (b ∷ s) ∷ ss

pub c_strings : List ℕ → List (List ℕ)
c_strings [] = []
c_strings (b ∷ bs) = let rest = c_strings bs in if b == 0 then [] ∷ rest else push_byte b rest

-- A first string that is empty stands for no names at all.
abbrev pub without_empty : List (List ℕ) → List (List ℕ)
without_empty [] = []
without_empty ([] ∷ ss) = []
without_empty ((b ∷ bs) ∷ ss) = (b ∷ bs) ∷ ss

-- The names that a client finds in a payload.
unfoldable pub received_names : List ℕ → List (List ℕ)
received_names payload = without_empty (c_strings payload)

-- The regular files of a directory.
unfoldable pub regular_names : List Entry → List (List ℕ)
regular_names [] = []
regular_names (e ∷ es) = let rest = regular_names es in if e.is_regular then e.name ∷ rest else rest

-- A name of a file: not empty, and with no zero byte.
abbrev pub IsFileName : List ℕ → Type 0
IsFileName name = (name ≢ []) × All (λ b. (b ≢ 0) × (b < 256)) name

append-cons-ne-nil : (xs : List ℕ) (b : ℕ) (ys : List ℕ) → xs ++ b ∷ ys ≢ []
append-cons-ne-nil [] b ys z = cc
append-cons-ne-nil (x ∷ xs) b ys z = cc

c_strings-append :
    (name rest : List ℕ)
    → All (λ b. (b ≢ 0) × (b < 256)) name
    → c_strings (name ++ 0 ∷ rest) ≡ name ∷ c_strings rest
unfolding c_strings
c_strings-append [] rest h = refl
c_strings-append (b ∷ name) rest h =
    rw (==_of_ne b 0 h.0.0) (rw (c_strings-append name rest h.1) refl)

c_strings-listing :
    (entries : List Entry)
    → All (λ e. IsFileName e.name) entries
    → c_strings (listing entries) ≡ regular_names entries
unfolding listing regular_names
c_strings-listing [] h = unfold c_strings in refl
c_strings-listing (e ∷ es) h = elim (Bool-cases e.is_regular) [
  | inl g ↦
      rw g (c_strings-append e.name (listing es) h.0.1 ∙ ap (◌∷◌ e.name) (c_strings-listing es h.1))
  | inr g ↦ rw g (c_strings-listing es h.1)
]

regular_names-nil :
    (entries : List Entry) → any_regular entries ≡ false → regular_names entries ≡ []
unfolding any_regular regular_names
regular_names-nil [] h = refl
regular_names-nil (e ∷ es) h = elim (Bool-cases e.is_regular) [
  | inl g ↦ cc
  | inr g ↦ rw g (regular_names-nil es (ground arith))
]

without_empty-cons : (s : List ℕ) (ss : List (List ℕ)) → s ≢ [] → without_empty (s ∷ ss) ≡ s ∷ ss
without_empty-cons [] ss h = absurd (h refl)
without_empty-cons (b ∷ bs) ss h = refl

regular_names-received :
    (entries : List Entry)
    → All (λ e. IsFileName e.name) entries
    → without_empty (regular_names entries) ≡ regular_names entries
unfolding regular_names
regular_names-received [] h = refl
regular_names-received (e ∷ es) h = elim (Bool-cases e.is_regular) [
  | inl g ↦ rw g (without_empty-cons e.name (regular_names es) h.0.0)
  | inr g ↦ rw g (regular_names-received es h.1)
]

-- If no name is empty or has a zero byte, a client finds the names of the regular files of a
-- directory, in the order of its entries, in the payload that `directory_send` makes of it.
pub received_names-directory_buffer :
    (entries : List Entry)
    → All (λ e. IsFileName e.name) entries
    → received_names (directory_buffer (some entries)) ≡ regular_names entries
unfolding received_names directory_buffer c_strings
received_names-directory_buffer entries h = elim (Bool-cases (any_regular entries)) [
  | inl g ↦ rw g (ap without_empty (c_strings-listing entries h) ∙ regular_names-received entries h)
  | inr g ↦ rw g (sym (regular_names-nil entries g))
]

listing-IsByte :
    (entries : List Entry) → All (λ e. IsFileName e.name) entries → All IsByte (listing entries)
unfolding listing
listing-IsByte [] h = tt
listing-IsByte (e ∷ es) h =
    let rest = listing-IsByte es h.1 in
    let name = All-mono (λ b. (b ≢ 0) × (b < 256)) IsByte e.name (λ b g. g.1) h.0.1 in
    elim (Bool-cases e.is_regular) [
      | inl g ↦ rw g (All-append IsByte e.name (0 ∷ listing es) name (omega arith, rest))
      | inr g ↦ rw g rest
    ]

directory_buffer-IsByte :
    (entries : List Entry)
    → All (λ e. IsFileName e.name) entries
    → All IsByte (directory_buffer (some entries))
unfolding directory_buffer
directory_buffer-IsByte entries h = elim (Bool-cases (any_regular entries)) [
  | inl g ↦ rw g (listing-IsByte entries h)
  | inr g ↦ rw g (omega arith, tt)
]

listing-ne-nil : (entries : List Entry) → any_regular entries ≡ true → listing entries ≢ []
unfolding any_regular listing
listing-ne-nil [] h = cc
listing-ne-nil (e ∷ es) h = elim (Bool-cases e.is_regular) [
  | inl g ↦ rw g (λ z. append-cons-ne-nil e.name 0 (listing es) z)
  | inr g ↦ rw g (listing-ne-nil es (ground arith))
]

directory_buffer-ne-nil : (entries : List Entry) → directory_buffer (some entries) ≢ []
unfolding directory_buffer
directory_buffer-ne-nil entries = elim (Bool-cases (any_regular entries)) [
  | inl g ↦ rw g (listing-ne-nil entries g)
  | inr g ↦ rw g (λ z. cc)
]

sent-frame :
    (header : ℕ) (payload : List ℕ)
    → sent
        (sends (header ∷ []) ∷ sends (le_bytes 8 (bswap 8 (length payload))) ∷ sends payload ∷ [])
      ≡ frame header payload
unfolding sent
sent-frame header payload =
    ap (◌∷◌ header) (ap₂ ◌++◌ (le_bytes-bswap 8 (length payload)) (append-nil payload))

-- For a directory that can be opened, whose names are not empty and have no zero byte,
-- `directory_send` sends one message: the header, the length and the listing for a client that
-- asks for no compression, and otherwise a payload that `decompress` makes the listing of, over a
-- prefix-free dictionary that codes it in fewer than 2^31 bits.
pub directory_send-frame :
    (junk : ℕ → ℕ) (dict : Dict) (entries : List Entry) (m : Message)
    → ((i : ℕ) → junk i < 256)
    → IsDict dict
    → IsPrefixFree dict
    → All (λ e. IsFileName e.name) entries
    → length (encode dict (directory_buffer (some entries))) < 2 ^ 31
    → (header : ℕ) × (payload : List ℕ) × ((directory_send junk dict (some entries) m >>= λ events.
          ok (sent events))
        ≡ ok (frame header payload))
      × (((m.requires_compression ≡ 1)
            × (header ≡ 0x38)
            × (decompress dict payload ≡ ok (directory_buffer (some entries))))
          ⊎ ((m.requires_compression ≢ 1)
              × (header ≡ 0x30)
              × (payload ≡ directory_buffer (some entries))))
unfolding directory_send
directory_send-frame junk dict entries m hj d f h lt =
    let buf = directory_buffer (some entries) in
    let bytes = directory_buffer-IsByte entries h in
    let few : length buf < 2 ^ 31 = omega (arith, length-encode dict buf d f bytes, lt) in
    let (result, e, p) = compress-Packs junk dict buf hj d bytes few lt in
    let back = decompress-Packs dict buf result d f bytes (directory_buffer-ne-nil entries) lt p in
    elim (Bool-cases (m.requires_compression == 1)) [
      | inl g ↦ (
        0x38,
        result,
        rw (leb_of_lt (length buf) (2 ^ 31) few, g) (rw e (ap ok (sent-frame 0x38 result))),
        inl (ground arith, refl, back),
      )
      | inr g ↦ (
        0x30,
        buf,
        rw (leb_of_lt (length buf) (2 ^ 31) few, g) (ap ok (sent-frame 0x30 buf)),
        inr (ground arith, refl, refl),
      )
    ]
