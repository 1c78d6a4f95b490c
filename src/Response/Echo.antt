-- ===== src/Response/Echo.antt =====
-- What `echo` answers, and when its buffer is too small.
use multiplexing_server.Base.{
  ℕ, ◌≤◌, ◌<◌, ◌≡◌, ◌⊎◌, inl, inr, refl, ap, List, [], ◌∷◌, ◌++◌, ok, fault, ◌==◌, if◌then◌else◌,
  length, le→leb, leb_self, leb_of_lt,
}
use multiplexing_server.Codec.Dict.{Dict}
use multiplexing_server.Codec.Compress.{compress}
use multiplexing_server.Wire.{le_bytes-bswap}
use multiplexing_server.Message.{Message, contents}
use multiplexing_server.Message.Laws.{frame}
use multiplexing_server.Response.{sends, container, echo}

-- What the handlers put together is a message as `get_description` reads it.
pub container-frame :
    (header : ℕ) (payload : List ℕ) → container header payload ≡ frame header payload
unfolding container
container-frame header payload =
    ap (λ l. header ∷ (l ++ payload)) (le_bytes-bswap 8 (length payload))

-- An echo that asks for no compression comes back as it is, and one that is compressed already as it
-- is under a header that says so.
pub echo_plain :
    (junk : ℕ → ℕ) (dict : Dict) (m : Message)
    → ((m.requires_compression ≡ 0) ⊎ ((m.requires_compression ≡ 1) × (m.compression ≡ 1)))
    → let header : ℕ = if m.requires_compression == 1 then 0x18 else 0x10 in
      let payload = contents m.buffer in
      echo junk dict m ≡ ok (sends (frame header payload) ∷ [], payload)
unfolding echo
echo_plain junk dict m (inl e) =
    rw (e, leb_self (length (contents m.buffer)), container-frame 0x10 (contents m.buffer)) refl
echo_plain junk dict m (inr (e, c)) =
    rw (e, c, leb_self (length (contents m.buffer)), container-frame 0x18 (contents m.buffer)) refl

-- An echo that is to be compressed is answered with the compressed payload if that is no longer
-- than the payload; if it is longer, the copy of it runs over the end of the buffer for the
-- answer.
pub echo_compressing :
    (junk : ℕ → ℕ) (dict : Dict) (m : Message) (result : List ℕ)
    → m.requires_compression ≡ 1
    → m.compression ≡ 0
    → compress junk dict (contents m.buffer) ≡ ok result
    → (length result ≤ length (contents m.buffer)
        → echo junk dict m ≡ ok (sends (frame 0x18 result) ∷ [], result))
      × (length (contents m.buffer) < length result → echo junk dict m ≡ fault)
unfolding echo
echo_compressing junk dict m result hr hc e = (
  λ le.
      rw (hr, hc)
        (rw e (
          rw (le→leb (length result) (length (contents m.buffer)) le, container-frame 0x18 result)
            refl)),
  λ lt. rw (hr, hc) (rw e (rw (leb_of_lt (length (contents m.buffer)) (length result) lt) refl)),
)
