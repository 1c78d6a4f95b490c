-- ===== src/Optimized/Dispatch/Echoes.antt =====
-- A connection over which a client sends echo messages one behind the other, in whatever pieces.
use multiplexing_server.Base.{
  ℕ, suc, ◌^◌, ◌<◌, ◌≡◌, ◌≢◌, refl, ap, ap₂, sym, ◌∙◌, inl, Option, List, [], ◌∷◌, ◌++◌,
  append_assoc, append-nil, Outcome, ok, ok_inj, >>=-eq-ok, length, All, ==_of_ne, arith,
}
use multiplexing_server.Codec.Dict.{Dict}
use multiplexing_server.Message.{
  Message, full, closed, Socket, has_payload, decompress_message, needs_decompression,
}
use multiplexing_server.Message.Laws.{frame, header_byte, buffer_of}
use multiplexing_server.Message.Compressed.{contents-buffer_of}
use multiplexing_server.Response.{Event, sends, frees_path, sent, FileSystem, Entry}
use multiplexing_server.Response.Echo.{echo_plain}
use multiplexing_server.Server.{Turn, continues, closes}
use multiplexing_server.Server.Echoes.{echo_stream}
use multiplexing_server.Optimized.Reading.Stream.{stream, AllArrive}
use multiplexing_server.Optimized.Reading.Stream.Described.{describe_stream}
use multiplexing_server.Optimized.Reading.Frames.{describe_stream-frame}
use multiplexing_server.Optimized.Reading.Arrivals.{Describes, get_description_optimized-Describes}
use multiplexing_server.Optimized.Handlers.{echo_optimized}
use multiplexing_server.Optimized.Handlers.Answers.{echo_reaches, echo_optimized-echo}
use multiplexing_server.Optimized.Dispatch.{
  ThreadPoolOptimized, handle_message_optimized, handle_optimized, client_handling_optimized,
}

abbrev echo_message : List ℕ → Message
echo_message p = record {
  type = 0;
  compression = 0;
  requires_compression = 0;
  length = length p;
  buffer = buffer_of p;
}

-- What the peer gets for them.
abbrev pub echo_answers : List (List ℕ) → List ℕ
echo_answers [] = []
echo_answers (p ∷ ps) = frame 0x10 p ++ echo_answers ps

sent-append : (xs ys : List Event) → sent (xs ++ ys) ≡ sent xs ++ sent ys
unfolding sent
sent-append [] ys = refl
sent-append (sends bs ∷ xs) ys =
    ap (λ l. bs ++ l) (sent-append xs ys) ∙ sym (append_assoc bs (sent xs) (sent ys))
sent-append (frees_path ∷ xs) ys = sent-append xs ys

-- The stream starts with an echo message.
echo_message-Describes :
    (dict : Dict) (socket : Socket) (p rest : List ℕ)
    → AllArrive socket
    → stream socket ≡ frame (header_byte 0 0 0) p ++ rest
    → length p < 2 ^ 64
    → Describes dict socket (full (echo_message p)) rest
unfolding decompress_message needs_decompression has_payload
echo_message-Describes dict socket p rest h e lt =
    get_description_optimized-Describes dict socket (full (echo_message p)) rest h
      (rw e (describe_stream-frame dict 0 0 0 p rest refl (omega arith) (omega arith) lt))

module _ (accept malloc_junk junk : ℕ → ℕ) (dict : Dict) (files : FileSystem) (directory : List ℕ)
    (entries : Option (List Entry)) (list_fuel : ℕ) where
  echo_handled :
      (turn : Turn) (pool : ThreadPoolOptimized) (p : List ℕ)
      → ((call : ℕ) → accept call ≢ 0)
      → (es : List Event) × (handle_optimized accept malloc_junk junk dict files directory entries
            list_fuel turn
            (full (echo_message p))
            pool
          ≡ ok (continues, es, pool))
        × (sent es ≡ frame 0x10 p)
  unfolding handle_optimized handle_message_optimized has_payload sent
  echo_handled turn pool p ha =
      let g : List Event × List ℕ → Outcome (List ℕ × List ℕ) = λ q. ok (sent q.0, q.1) in
      let plain = ap echo_reaches (echo_plain junk dict (echo_message p) (inl refl)) in
      let ((es, after), r, q) =
        >>=-eq-ok (echo_optimized accept junk dict (echo_message p)) g
          (echo_optimized-echo accept junk dict (echo_message p) ha ∙ plain) in
      (
        es,
        rw r refl,
        ap (λ (x : List ℕ × List ℕ). x.0) (ok_inj q)
            ∙ append-nil (frame 0x10 _)
            ∙ ap (frame 0x10) (contents-buffer_of p),
      )

  -- How the loop ends.
  pub record EchoesAnswered (turns : ℕ → Turn) (pool : ThreadPoolOptimized)
      (payloads : List (List ℕ)) (socket : Socket) : Type 0 where
    pub events : List Event
    pub socket' : Socket
    pub returns :
        client_handling_optimized accept malloc_junk junk dict files directory entries list_fuel
          (suc (length payloads))
          turns
          socket
          pool
        ≡ ok (closes, events, socket', pool)
    pub answers : sent events ≡ echo_answers payloads

  -- Unless the server is shut down: however many echo messages shorter than 2^64 come that ask for no
  -- compression, in whatever pieces they arrive, and if every call of `send` takes a byte at least, the
  -- peer gets for each in its turn one message that carries its payload, and then the closed connection
  -- ends the loop; the thread pool is as it was. One unit of fuel for each message and one more is
  -- enough.
  pub client_handling_optimized_echoes :
      (turns : ℕ → Turn) (pool : ThreadPoolOptimized) (payloads : List (List ℕ)) (socket : Socket)
      → ((call : ℕ) → accept call ≢ 0)
      → pool.shut ≢ 1
      → All (λ p. length p < 2 ^ 64) payloads
      → AllArrive socket
      → stream socket ≡ echo_stream payloads
      → EchoesAnswered turns pool payloads socket
  unfolding client_handling_optimized handle_optimized describe_stream sent
  client_handling_optimized_echoes turns pool [] socket ha hs h arrive e =
      let d = get_description_optimized-Describes dict socket closed [] arrive (rw e refl) in
      record {
        events = [];
        socket' = d.socket';
        returns = rw (==_of_ne pool.shut 1 hs) (rw d.returns refl);
        answers = refl;
      }
  client_handling_optimized_echoes turns pool (p ∷ ps) socket ha hs h arrive e =
      let d = echo_message-Describes dict socket p (echo_stream ps) arrive e h.0 in
      let (es, r, s) = echo_handled (turns (suc (length ps))) pool p ha in
      let rest =
        client_handling_optimized_echoes turns pool ps d.socket' ha hs h.1 d.arrive d.behind in
      record {
        events = es ++ rest.events;
        socket' = rest.socket';
        returns = rw (==_of_ne pool.shut 1 hs) (rw d.returns (rw r (rw rest.returns refl)));
        answers = sent-append es rest.events ∙ ap₂ ◌++◌ s rest.answers;
      }
