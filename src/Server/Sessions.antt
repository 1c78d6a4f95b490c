-- ===== src/Server/Sessions.antt =====
-- File requests and the list of them: a request that starts a session, and one that joins it.
use multiplexing_server.Base.{
  ℕ, suc, ◌<◌, ◌≡◌, ◌≢◌, ◌⊎◌, ◌↔◌, refl, inl, inr, true, false, Option, none, some, List, [], ◌∷◌,
  ◌++◌, ok, fault, length, arith,
}
use multiplexing_server.Links.{update, update_self, ChainTo-update, NotIn}
use multiplexing_server.Codec.Dict.{Dict}
use multiplexing_server.Message.{Message}
use multiplexing_server.RequestList.{FileRequest, RequestList, add, remove_node}
use multiplexing_server.RequestList.Chain.{Holds}
use multiplexing_server.RequestList.Add.{add-Keeps, Keeps}
use multiplexing_server.RequestList.Remove.{
  Removed, remove_node-Removed, remove_node_only, remove_node_first,
}
use multiplexing_server.Response.{Event, FileSystem, Entry}
use multiplexing_server.Segments.{Piece, parent_send}
use multiplexing_server.Server.{
  ThreadPool, Turn, continues, same_name, differs, set_pipe, start_request,
}

same_name_iff : (xs ys : List ℕ) → (same_name xs ys ≡ true) ↔ (xs ≡ ys)
unfolding same_name
same_name_iff [] [] = ground arith
same_name_iff [] (y ∷ ys) = ground arith
same_name_iff (x ∷ xs) [] = ground arith
same_name_iff (x ∷ xs) (y ∷ ys) = let rest = same_name_iff xs ys in ground (arith, rest)

-- A request with the session of another one joins it exactly if both name the same part of the same
-- file.
pub differs_iff :
    (req curr : FileRequest)
    → (differs req curr ≡ false)
      ↔ ((req.file_name ≡ curr.file_name) × (req.length ≡ curr.length) × (req.offset ≡ curr.offset))
unfolding differs
differs_iff req curr = ground (arith, same_name_iff req.file_name curr.file_name)

module _ (header_junk : ℕ) (malloc_junk junk : ℕ → ℕ) (dict : Dict) (files : FileSystem)
    (directory : List ℕ) (entries : Option (List Entry)) (list_fuel : ℕ) (turn : Turn)
    (req : FileRequest) (msg : Message) (pool : ThreadPool) where
  -- A session starts over a list of requests, with `next` null, and its transfer comes to an end; in
  -- between the other threads leave `others` in the list.
  pub record Session (events : List Event) (pieces : List Piece) (ps others : List ℕ) : Type 0 where
    pub holds : Holds pool.requests_list ps
    pub fresh : NotIn turn.address ps
    pub null_next : req.next ≡ none
    pub sends_all :
        parent_send malloc_junk junk dict msg.requires_compression files directory
          (record req { num_connect = 0 })
          turn.before
          turn.after
        ≡ ok (events, pieces)
    pub meanwhile :
        (list : RequestList)
        → Holds list (ps ++ turn.address ∷ [])
        → Holds (turn.others list) others

  abbrev started : FileRequest
  started = record req { num_connect = 0 }

  abbrev entered : RequestList
  entered = record pool.requests_list {
    cell = update pool.requests_list.cell turn.address (some started);
  }

  added :
      (events : List Event) (pieces : List Piece) (ps others : List ℕ)
      → Session events pieces ps others
      → Keeps entered.cell (ps ++ turn.address ∷ []) (add entered turn.address)
  added events pieces ps others s =
      add-Keeps entered turn.address started ps
        (record {
          chain =
              ChainTo-update (λ (r : FileRequest). r.next) pool.requests_list.cell turn.address
                (some started) pool.requests_list.head ps none s.fresh s.holds.chain;
          tail_last = s.holds.tail_last;
          distinct = s.holds.distinct;
        })
        s.fresh (update_self pool.requests_list.cell turn.address (some started)) s.null_next

  removes :
      (list : RequestList) (before after : List ℕ)
      → length before < list_fuel
      → (before ≢ []) ⊎ (after ≡ [])
      → Holds list (before ++ turn.address ∷ after)
      → Removed list.cell turn.address (before ++ after) (remove_node list_fuel list turn.address)
  removes list [] after lt (inl ne) h = absurd (ne refl)
  removes list [] after lt (inr e) h =
      rw e (remove_node_only list_fuel list turn.address (rw (← e) h))
  removes list (q ∷ qs) after lt k h =
      remove_node-Removed list_fuel list q qs turn.address after (omega arith) h

  -- When a session starts over a list that holds its requests, with a request whose memory `malloc`
  -- gives with a null `next`, its transfer comes to an end, and its request is then not the first of
  -- several in the list, the request is taken out of the list, the others stay in their order, and the
  -- loop goes on with the next message.
  pub start_request-removes :
      (events : List Event) (pieces : List Piece) (ps before after : List ℕ)
      → length before < list_fuel
      → (before ≢ []) ⊎ (after ≡ [])
      → Session events pieces ps (before ++ turn.address ∷ after)
      → (list : RequestList) × Holds list (before ++ after)
        × (start_request header_junk malloc_junk junk dict files directory entries list_fuel turn
              req msg pool
            ≡ ok (
              continues,
              events,
              record pool { requests_list = list; pipe = set_pipe pool.pipe turn.address pieces },
            ))
  unfolding start_request
  start_request-removes events pieces ps before after lt k s =
      let w = added events pieces ps (before ++ turn.address ∷ after) s in
      let r = removes (turn.others w.list) before after lt k (s.meanwhile w.list w.holds) in
      (r.list, r.holds, rw w.returns (rw s.sends_all (rw r.returns refl)))

  -- When a session starts over a list that holds its requests, with a request whose memory `malloc`
  -- gives with a null `next`, its transfer comes to an end, and its request is then the first of
  -- several, as it is whenever the session that started first is the first to end, the search for the
  -- node before it runs off the end of the list.
  pub start_request-first :
      (events : List Event) (pieces : List Piece) (ps : List ℕ) (q : ℕ) (after : List ℕ)
      → suc (suc (length after)) < list_fuel
      → Session events pieces ps (turn.address ∷ q ∷ after)
      → start_request header_junk malloc_junk junk dict files directory entries list_fuel turn req
          msg pool
        ≡ fault
  unfolding start_request
  start_request-first events pieces ps q after lt s =
      let w = added events pieces ps (turn.address ∷ q ∷ after) s in
      let r =
        remove_node_first list_fuel (turn.others w.list) turn.address q after lt
          (s.meanwhile w.list w.holds) in
      rw w.returns (rw s.sends_all (rw r refl))
