-- ===== src/Optimized/Handlers/Answers.antt =====
-- The answers of the handlers against those of the handlers that they stand for.
use multiplexing_server.Base.{
  ℕ, ◌+◌, ◌^◌, ◌<◌, leb_of_lt, ◌≤◌, ◌≡◌, ◌≢◌, refl, ap, sym, ◌∙◌, inl, inr, Bool-cases, true, false,
  some, List, [], ◌∷◌, ◌++◌, append-nil, append_assoc, Outcome, ok, fault, exited, unfinished,
  Option-cases, ◌>>=◌, length, leb, ltb, le→leb, ltb_of_le, ◌==◌, ==_of_ne, if◌then◌else◌, arith,
}
use multiplexing_server.Codec.Dict.{Dict}
use multiplexing_server.Wire.{le_bytes, bswap}
use multiplexing_server.Message.{Message, contents}
use multiplexing_server.Response.{
  Event, sends, sent, c_string, is_traversal, join_path, FileSystem, Entry, container, listing,
  any_regular, directory_buffer, echo, file_size_response, directory_send,
}
use multiplexing_server.Optimized.Handlers.{
  send_all, grow, push_name, push_names, finish_buffer, listing_optimized, echo_optimized,
  file_size_response_optimized, directory_send_optimized,
}
use multiplexing_server.Optimized.Handlers.Sending.{send_all-whole, send_parts-frame}

-- What the peer gets of an answer.
abbrev pub reaches : Outcome (List Event) → Outcome (List ℕ)
reaches r = r >>= λ events. ok (sent events)

-- The same of an echo, with the payload that the message is left with.
abbrev pub echo_reaches : Outcome (List Event × List ℕ) → Outcome (List ℕ × List ℕ)
echo_reaches r = r >>= λ p. ok (sent p.0, p.1)

reaches-send_all :
    (accept : ℕ → ℕ) (buf : List ℕ)
    → ((call : ℕ) → accept call ≢ 0)
    → reaches (send_all accept buf) ≡ ok buf
reaches-send_all accept buf h = let (events, e, s) = send_all-whole accept buf h in rw e (ap ok s)

echo_reaches-send_all :
    (accept : ℕ → ℕ) (header room : ℕ) (first : Outcome (List ℕ))
    → ((call : ℕ) → accept call ≢ 0)
    → echo_reaches (
        first >>= λ after.
        if leb (length after) room
        then (send_all accept (container header after) >>= λ events. ok (events, after))
        else fault)
      ≡ echo_reaches (
          first >>= λ after.
          if leb (length after) room
          then ok (sends (container header after) ∷ [], after)
          else fault)
unfolding sent
echo_reaches-send_all accept header room fault h = refl
echo_reaches-send_all accept header room exited h = refl
echo_reaches-send_all accept header room unfinished h = refl
echo_reaches-send_all accept header room (ok after) h =
    let (events, e, s) = send_all-whole accept (container header after) h in
    let both : List ℕ → Outcome (List ℕ × List ℕ) = λ bs. ok (bs, after) in
    elim (Bool-cases (leb (length after) room)) [
      | inl g ↦ rw g (rw e (ap both (s ∙ sym (append-nil (container header after)))))
      | inr g ↦ rw g refl
    ]

-- Two answers that follow one step.
reaches-cong :
    (first : Outcome (List ℕ)) (f g : List ℕ → Outcome (List Event))
    → ((a : List ℕ) → first ≡ ok a → reaches (f a) ≡ reaches (g a))
    → reaches (first >>= f) ≡ reaches (first >>= g)
reaches-cong (ok a) f g h = h a refl
reaches-cong fault f g h = refl
reaches-cong exited f g h = refl
reaches-cong unfinished f g h = refl

le-grow : (capacity needed : ℕ) → needed ≤ grow capacity needed
unfolding grow
le-grow capacity needed = elim (Bool-cases (ltb capacity needed)) [
  | inl e ↦ rw e (omega arith)
  | inr e ↦ rw e (ground arith)
]

grow-le : (capacity needed : ℕ) → capacity ≤ grow capacity needed
unfolding grow
grow-le capacity needed = elim (Bool-cases (ltb capacity needed)) [
  | inl e ↦ rw e (ground arith)
  | inr e ↦ rw e (omega arith)
]

-- The loop, with room for all that it copies.
push_names-listing :
    (entries : List Entry) (buf : List ℕ) (capacity : ℕ)
    → (last : ℕ) × (push_names entries (buf, capacity) ≡ ok (buf ++ listing entries, last))
      × (capacity ≤ last)
unfolding push_names push_name listing
push_names-listing [] buf capacity =
    (capacity, ap (λ l. ok (l, capacity)) (sym (append-nil buf)), omega arith)
push_names-listing (e ∷ es) buf capacity = elim (Bool-cases e.is_regular) [
  | inl g ↦
      let needed = length buf + length e.name + 1 in
      let capacity' = grow capacity needed in
      let (last, h, le) = push_names-listing es (buf ++ (e.name ++ 0 ∷ [])) capacity' in
      (
        last,
        rw g (
            rw (le→leb needed capacity' (le-grow capacity needed)) (
              h
              ∙ ap (λ l. ok (l, last))
                  (append_assoc buf (e.name ++ 0 ∷ []) (listing es)
                    ∙ ap (λ l. buf ++ l) (append_assoc e.name (0 ∷ []) (listing es))))),
        omega (arith, le, grow-le capacity needed),
      )
  | inr g ↦ let (last, h, le) = push_names-listing es buf capacity in (last, rw g h, le)
]

filled : (last : ℕ) (l : List ℕ) → l ≢ [] → finish_buffer (l, last) ≡ ok l
unfolding finish_buffer
filled last [] h = absurd (h refl)
filled last (b ∷ l) h = refl

emptied : (last : ℕ) → 1 ≤ last → finish_buffer ([], last) ≡ ok (0 ∷ [])
unfolding finish_buffer
emptied last h = rw (le→leb 1 last h) refl

cons_behind : (xs : List ℕ) (b : ℕ) (ys : List ℕ) → xs ++ b ∷ ys ≢ []
cons_behind [] b ys z = cc
cons_behind (x ∷ xs) b ys z = cc

any_regular-listing : (es : List Entry) → any_regular es ≡ true → listing es ≢ []
unfolding any_regular listing
any_regular-listing [] h = cc
any_regular-listing (e ∷ es) h = elim (Bool-cases e.is_regular) [
  | inl g ↦ rw g (cons_behind e.name 0 (listing es))
  | inr g ↦ rw g (any_regular-listing es (ground arith))
]

none_regular : (es : List Entry) → any_regular es ≡ false → listing es ≡ []
unfolding any_regular listing
none_regular [] h = refl
none_regular (e ∷ es) h = elim (Bool-cases e.is_regular) [
  | inl g ↦ cc
  | inr g ↦ rw g (none_regular es (ground arith))
]

finish_buffer-listing :
    (entries : List Entry) (last : ℕ)
    → 1 ≤ last
    → finish_buffer (listing entries, last) ≡ ok (directory_buffer (some entries))
unfolding directory_buffer
finish_buffer-listing entries last le = elim (Bool-cases (any_regular entries)) [
  | inl e ↦ rw e (filled last (listing entries) (any_regular-listing entries e))
  | inr e ↦ rw e (rw (none_regular entries e) (emptied last le))
]

-- The buffer that grows never overflows, and holds at the end what the buffer that is made anew for
-- each name holds.
pub listing_optimized-directory_buffer :
    (entries : List Entry) → listing_optimized entries ≡ ok (directory_buffer (some entries))
unfolding listing_optimized
listing_optimized-directory_buffer entries =
    let (last, e, le) = push_names-listing entries [] 4096 in
    rw e (finish_buffer-listing entries last (omega (arith, le)))

directory_buffer_lt :
    (entries : List Entry)
    → length (listing entries) < 2 ^ 31
    → length (directory_buffer (some entries)) < 2 ^ 31
unfolding directory_buffer
directory_buffer_lt entries h = elim (Bool-cases (any_regular entries)) [
  | inl e ↦ rw e h
  | inr e ↦ rw e (omega arith)
]

module _ (accept junk : ℕ → ℕ) (dict : Dict) where
  -- On a connection that takes a byte at least in every call of `send`, the peer gets from
  -- `echo_optimized` what it gets from `echo`, for every message, and the two fail for the same
  -- messages.
  pub echo_optimized-echo :
      (m : Message)
      → ((call : ℕ) → accept call ≢ 0)
      → echo_reaches (echo_optimized accept junk dict m) ≡ echo_reaches (echo junk dict m)
  unfolding echo_optimized echo
  echo_optimized-echo m h =
      echo_reaches-send_all accept (if m.requires_compression == 1 then 0x18 else 0x10)
        (length (contents m.buffer)) _ h

  -- For a request that asks for no compression, and a path of fewer than 4096 bytes, on a connection
  -- that takes a byte at least in every call of `send`, the peer gets from
  -- `file_size_response_optimized` what it gets from `file_size_response`.
  pub file_size_response_optimized-file_size_response :
      (files : FileSystem) (directory : List ℕ) (m : Message)
      → ((call : ℕ) → accept call ≢ 0)
      → m.requires_compression ≢ 1
      → ((name : List ℕ)
          → c_string (contents m.buffer) ≡ ok name
          → length directory + length name + 2 ≤ 4096)
      → reaches (file_size_response_optimized accept junk dict files directory m)
        ≡ reaches (file_size_response junk dict files directory m)
  unfolding file_size_response_optimized file_size_response sent
  file_size_response_optimized-file_size_response files directory m h hr hl =
      let plain = ==_of_ne m.requires_compression 1 hr in
      reaches-cong (c_string (contents m.buffer)) _ _ (λ name c.
        elim (Bool-cases (is_traversal name)) [
          | inl e ↦ rw e refl
          | inr e ↦
              rw (e, ltb_of_le (length directory + length name + 2) 4096 (hl name c))
                (elim (Option-cases (files (join_path directory name))) [
                  | inl n ↦ rw n refl
                  | inr (file, g) ↦
                      let answer = container 0x50 (le_bytes 8 (bswap 8 (length file))) in
                      rw (g, plain)
                        (reaches-send_all accept answer h ∙ ap ok (sym (append-nil answer)))
                ])
        ])

  -- For a directory that can be opened and a request that asks for no compression, on a connection that
  -- takes a byte at least in every call of `send`, and in the second, which is the one for the length,
  -- all of its 8 bytes, the peer gets from `directory_send_optimized` what it gets from
  -- `directory_send` on a connection that takes all of every call, if the names have fewer than 2^31
  -- bytes, the zero behind each of them counted.
  pub directory_send_optimized-directory_send :
      (entries : List Entry) (m : Message)
      → ((call : ℕ) → accept call ≢ 0)
      → 8 ≤ accept 1
      → m.requires_compression ≢ 1
      → length (listing entries) < 2 ^ 31
      → reaches (directory_send_optimized accept junk dict (some entries) m)
        ≡ reaches (directory_send junk dict (some entries) m)
  unfolding directory_send_optimized directory_send sent
  directory_send_optimized-directory_send entries m h eight hr few =
      let buf = directory_buffer (some entries) in
      let (events, e, s) = send_parts-frame accept 0x30 buf h eight in
      let front : List ℕ → Outcome (List ℕ) =
        λ l. ok (0x30 ∷ (le_bytes 8 (bswap 8 (length buf)) ++ l)) in
      rw
        (
          listing_optimized-directory_buffer entries,
          leb_of_lt (length buf) (2 ^ 31) (directory_buffer_lt entries few),
        )
        (rw (==_of_ne m.requires_compression 1 hr)
          (rw e (ap ok s ∙ ap front (sym (append-nil buf)))))
