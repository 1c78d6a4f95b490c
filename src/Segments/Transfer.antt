-- ===== src/Segments/Transfer.antt =====
-- A transfer from `parent_send` to the last `child_send`, and the ways in which it goes wrong.
use multiplexing_server.Base.{
  ℕ, zero, suc, ◌+◌, ◌-◌, ◌%◌, ◌^◌, ◌≤◌, ◌<◌, ◌≡◌, refl, ap, sym, ◌∙◌, false, some, List, [], ◌∷◌,
  ◌++◌, Outcome, ok, ◌>>=◌, >>=-eq-ok, ltb_of_le, length, take-nil, drop_all, take, drop, All,
  All-mono, All-append_left, All-append_right, arith,
}
use multiplexing_server.Codec.Dict.{Dict, IsDict, IsPrefixFree, IsByte}
use multiplexing_server.Codec.Compress.Laws.{encode}
use multiplexing_server.RequestList.{FileRequest}
use multiplexing_server.Response.{Event, is_traversal, join_path, FileSystem}
use multiplexing_server.Segments.{
  Piece, split_range, out_of_range, segment_header, read_segment, child_send, parent_send,
}
use multiplexing_server.Segments.Plan.{Tiles, split_range-Splits}
use multiplexing_server.Segments.Send.{
  slice, segment, Delivers, segment-IsByte, segment-ne-nil, read_segment-segment,
  send_segment-Delivers, child_send-Delivers,
}

-- The bytes of a file that several pieces stand for, in their order.
abbrev pub slices : List ℕ → List Piece → List ℕ
slices file [] = []
slices file (p ∷ ps) = slice file p ++ slices file ps

take_add : (m n : ℕ) (xs : List ℕ) → take (m + n) xs ≡ take m xs ++ take n (drop m xs)
take_add zero n xs = ap (λ k. take k xs) (omega arith)
take_add (suc m) n [] = take-nil (suc m + n) ∙ sym (take-nil n)
take_add (suc m) n (x ∷ xs) =
    let e : suc m + n ≡ suc (m + n) = omega arith in rw e (ap (◌∷◌ x) (take_add m n xs))

drop_add : (m n : ℕ) (xs : List ℕ) → drop (m + n) xs ≡ drop n (drop m xs)
drop_add zero n xs = ap (λ k. drop k xs) (omega arith)
drop_add (suc m) n [] = drop_all (suc m + n) [] (omega arith) ∙ sym (drop_all n [] (omega arith))
drop_add (suc m) n (x ∷ xs) =
    let e : suc m + n ≡ suc (m + n) = omega arith in rw e (drop_add m n xs)

Tiles-le : (start stop : ℕ) (ps : List Piece) → Tiles start ps stop → start ≤ stop
Tiles-le start stop [] h = omega (arith, h)
Tiles-le start stop (p ∷ ps) h = omega (arith, Tiles-le (start + p.length) stop ps h.1)

-- No piece goes past the end.
Tiles-below :
    (start stop : ℕ) (ps : List Piece)
    → Tiles start ps stop
    → All (λ p. p.offset + p.length ≤ stop) ps
Tiles-below start stop [] h = tt
Tiles-below start stop (p ∷ ps) h = (
  omega (arith, h.0, Tiles-le (start + p.length) stop ps h.1),
  Tiles-below (start + p.length) stop ps h.1,
)

slices-Tiles :
    (file : List ℕ) (start stop : ℕ) (ps : List Piece)
    → Tiles start ps stop
    → slices file ps ≡ take (stop - start) (drop start file)
slices-Tiles file start stop [] h = let e : stop - start ≡ 0 = omega (arith, h) in rw e refl
slices-Tiles file start stop (p ∷ ps) h =
    let le = Tiles-le (start + p.length) stop ps h.1 in
    let e : stop - start ≡ p.length + (stop - (start + p.length)) = omega (arith, le) in
    let rest = slices-Tiles file (start + p.length) stop ps h.1 in
    rw h.0 (
      ap (λ t. take p.length (drop start file) ++ t)
        (rest ∙ ap (take (stop - (start + p.length))) (drop_add start p.length file))
      ∙ sym (
          ap (λ n. take n (drop start file)) e
          ∙ take_add p.length (stop - (start + p.length)) (drop start file)))

out_of_range-inside :
    (r : FileRequest) (st_size : ℕ)
    → r.offset + r.length ≤ st_size
    → st_size < 2 ^ 64
    → out_of_range r st_size ≡ false
unfolding out_of_range
out_of_range-inside r st_size h lt =
    let small : (r.offset + r.length) % 2 ^ 64 ≡ r.offset + r.length = omega (arith, h, lt) in
    rw (ltb_of_le r.offset st_size (omega arith), small, ltb_of_le (r.offset + r.length) st_size h)
      refl

-- A sequence of connections that each answer from the same pipe.
module _ (malloc_junk junk : ℕ → ℕ) (dict : Dict) (files : FileSystem) (directory : List ℕ)
    (r : FileRequest) where
  pub child_sends : List ℕ → List Piece → Outcome (List Event × List Piece)
  child_sends [] pipe = ok ([], pipe)
  child_sends (compressed ∷ flags) pipe = do
    (es, pipe') ← child_send malloc_junk junk dict compressed files directory r pipe
    (fs, pipe'') ← child_sends flags pipe'
    ok (es ++ fs, pipe'')

-- Each connection delivers the segment of its piece, compressed or not as its own client asks.
abbrev pub AllDeliver : Dict → ℕ → List ℕ → List ℕ → List Piece → List Event → Type 0
AllDeliver dict session_id file [] [] [] = Unit
AllDeliver dict session_id file (c ∷ cs) (p ∷ ps) (e ∷ es) =
    Delivers dict c (segment session_id file p) e × AllDeliver dict session_id file cs ps es
AllDeliver dict session_id file _ _ _ = ⊥

module _ (malloc_junk junk : ℕ → ℕ) (dict : Dict) (hj : (i : ℕ) → junk i < 256) (d : IsDict dict)
    (f : IsPrefixFree dict) where
  -- The connections that answer from a pipe with a piece for each.
  record Answered (flags : List ℕ) (files : FileSystem) (directory file : List ℕ) (r : FileRequest)
      (pieces : List Piece) : Type 0 where
    events : List Event
    answers : child_sends malloc_junk junk dict files directory r flags pieces ≡ ok (events, [])
    deliver : AllDeliver dict r.session_id file flags pieces events

  child_sends-Answered :
      (flags : List ℕ) (files : FileSystem) (directory file : List ℕ) (r : FileRequest)
      (pieces : List Piece)
      → is_traversal r.file_name ≡ false
      → files (join_path directory r.file_name) ≡ some file
      → All IsByte file
      → 20 + length file < 2 ^ 64
      → ((p : Piece) → length (encode dict (segment r.session_id file p)) < 2 ^ 31)
      → length flags ≡ length pieces
      → All (λ p. p.offset + p.length ≤ length file) pieces
      → Answered flags files directory file r pieces
  unfolding child_sends
  child_sends-Answered [] files directory file r [] ht hf hb hl fits e h = record {
    events = [];
    answers = refl;
    deliver = tt;
  }
  child_sends-Answered [] files directory file r (p ∷ ps) ht hf hb hl fits e h =
      absurd (omega arith)
  child_sends-Answered (c ∷ cs) files directory file r [] ht hf hb hl fits e h =
      absurd (omega arith)
  child_sends-Answered (c ∷ cs) files directory file r (p ∷ ps) ht hf hb hl fits e h =
      let (event, sent', delivers) =
        child_send-Delivers malloc_junk junk dict hj d f c files directory file r p ps ht hf hb h.0
          (omega (arith, h.0)) (fits p) in
      let rest =
        child_sends-Answered cs files directory file r ps ht hf hb hl fits (omega arith) h.1 in
      record {
        events = event ∷ rest.events;
        answers = rw sent' (rw rest.answers refl);
        deliver = (delivers, rest.deliver);
      }

  -- A transfer that `n` connections join before `parent_send` divides the range: the answer of the
  -- parent, what it writes to the pipe, and the answers of the others.
  pub record Transfers (compressed : ℕ) (flags : List ℕ) (files : FileSystem)
      (directory file : List ℕ) (r : FileRequest) : Type 0 where
    pub pieces : List Piece
    pub parent : Piece
    pub event : Event
    pub events : List Event
    pub parent_answers :
        parent_send malloc_junk junk dict compressed files directory r (length flags) (length flags)
        ≡ ok (event ∷ [], pieces)
    pub parent_delivers : Delivers dict compressed (segment r.session_id file parent) event
    pub child_answers :
        child_sends malloc_junk junk dict files directory r flags pieces ≡ ok (events, [])
    pub child_delivers : AllDeliver dict r.session_id file flags pieces events
    pub whole : slices file (pieces ++ parent ∷ []) ≡ take r.length (drop r.offset file)

  -- A client requests a range inside of a file that exists, whose name passes the checks, and any
  -- number of connections join before the range is divided. Over a prefix-free dictionary that
  -- codes every segment in fewer than 2^31 bits, every byte of the range is sent once: every
  -- connection is answered with one message, compressed if its client asks for that, whose payload
  -- is the session, an offset, a length and those bytes of the file; nothing is left in the pipe;
  -- and the bytes of all connections, the parent's last, are together the bytes of the range.
  pub transfer :
      (compressed : ℕ) (flags : List ℕ) (files : FileSystem) (directory file : List ℕ)
      (r : FileRequest)
      → is_traversal r.file_name ≡ false
      → files (join_path directory r.file_name) ≡ some file
      → All IsByte file
      → 20 + length file < 2 ^ 64
      → ((p : Piece) → length (encode dict (segment r.session_id file p)) < 2 ^ 31)
      → r.offset + r.length ≤ length file
      → Transfers compressed flags files directory file r
  unfolding parent_send
  transfer compressed flags files directory file r ht hf hb hl fits h =
      let n = length flags in
      let (pieces, parent) = split_range n n r.offset r.length in
      let s = split_range-Splits n r.offset r.length (omega arith) in
      let below = Tiles-below r.offset (r.offset + r.length) (pieces ++ parent ∷ []) s.tiles in
      let inside =
        All-mono (λ p. p.offset + p.length ≤ r.offset + r.length)
          (λ p. p.offset + p.length ≤ length file) (pieces ++ parent ∷ [])
          (λ p le. omega (arith, le)) below in
      let last =
        All-append_right (λ p. p.offset + p.length ≤ length file) pieces (parent ∷ []) inside in
      let rest =
        child_sends-Answered flags files directory file r pieces ht hf hb hl fits (sym s.count)
          (All-append_left (λ p. p.offset + p.length ≤ length file) pieces (parent ∷ []) inside) in
      let (buffer, e1, e2) =
        >>=-eq-ok (segment_header malloc_junk junk dict r.session_id parent)
          (read_segment malloc_junk junk dict file parent)
          (read_segment-segment malloc_junk junk dict r.session_id file parent last.0
            (omega (arith, last.0))) in
      let (event, e3, delivers) =
        send_segment-Delivers malloc_junk junk dict hj d f compressed
          (segment r.session_id file parent) (segment-IsByte r.session_id file parent hb)
          (segment-ne-nil r.session_id file parent) (fits parent) in
      record {
        pieces = pieces;
        parent = parent;
        event = event;
        events = rest.events;
        parent_answers =
            rw (ht, hf)
              (rw (out_of_range-inside r (length file) h (omega arith))
                (rw e1 (rw e2 (rw e3 refl))));
        parent_delivers = delivers;
        child_answers = rest.answers;
        child_delivers = rest.deliver;
        whole =
            slices-Tiles file r.offset (r.offset + r.length) (pieces ++ parent ∷ []) s.tiles
            ∙ ap (λ k. take k (drop r.offset file)) (omega arith);
      }
