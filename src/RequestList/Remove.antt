-- ===== src/RequestList/Remove.antt =====
-- `remove_node` on a list that holds the node: in its middle or at its end, alone, and first of
-- several.
use multiplexing_server.Base.{
  ℕ, zero, suc, ◌<◌, ◌≡◌, ◌≢◌, refl, sym, ◌∙◌, Bool, true, false, Option, none, some, List, [], ◌∷◌,
  ◌++◌, All, arith, ◌&&◌, ==_self, if◌then◌else◌, length, drop, All-mono, ok, fault, Outcome,
}
use multiplexing_server.RequestList.{
  FileRequest, RequestList, is_ptr, set_next, find_previous, unlink, remove_node,
}
use multiplexing_server.RequestList.Chain.{Chain, Holds}
use multiplexing_server.Links.{Heap, update, update_self, update_ne, Distinct-middle}
use multiplexing_server.RequestList.Unlink.{
  Unlinks, Chain-Unlinks, unlinked, unlinked-same, is_ptr-other, is_ptr-last, new_tail,
}

-- The list when `remove_node` has unlinked `p` behind the first node.
abbrev without :
    {fuel : ℕ} {q : ℕ} {xs : List ℕ} {p : ℕ} {ys : List ℕ} (list : RequestList)
    → Unlinks fuel list.cell list.head q xs p ys
    → RequestList
without {p = p} list w = record {
  cell = unlinked list.cell w.node w.held p w.gone.next;
  head = list.head;
  tail = if is_ptr list.tail p then some w.node else list.tail;
}

unlink-eq :
    {fuel : ℕ} {q : ℕ} {xs : List ℕ} {p : ℕ} {ys : List ℕ} (list : RequestList)
    (w : Unlinks fuel list.cell list.head q xs p ys)
    → unlink fuel list p ≡ ok (without list w)
unfolding unlink set_next
unlink-eq list w = rw w.walk (rw w.at_gone (rw w.at_node refl))

elim_some {ℓ} :
    {A : Type ℓ} (o : Option ℕ) (q : ℕ) (a b : A)
    → o ≡ some q
    → (elim o [ none ↦ a | some _ ↦ b ]) ≡ b
elim_some o q a b e = rw e refl

remove_node_behind :
    (fuel : ℕ) (list : RequestList) (q p : ℕ)
    → list.head ≡ some q
    → (is_ptr list.head p && is_ptr list.tail p) ≡ false
    → remove_node fuel list p ≡ unlink fuel list p
unfolding remove_node
remove_node_behind fuel list q p e n = rw n (elim_some list.head q _ _ e)

-- `r` is a normal result, a list that holds `ps`; the request at `p` is freed, and those elsewhere are
-- there as before, but for their `next`.
pub record Removed (cell : Heap FileRequest) (p : ℕ) (ps : List ℕ) (r : Outcome RequestList)
    : Type 0 where
  pub list : RequestList
  pub returns : r ≡ ok list
  pub holds : Holds list ps
  pub freed : list.cell p ≡ none
  pub same :
      (q : ℕ) (r : FileRequest)
      → q ≢ p
      → cell q ≡ some r
      → (r' : FileRequest) × (list.cell q ≡ some r') × (record r' { next = r.next } ≡ r)

-- In a list that holds its requests, with more fuel than there are requests between the first and
-- the one to remove, `remove_node` of a request that is not the first takes it out, wherever it
-- stands: the others stay in the list in their order, it is freed, and no other field of another
-- request changes.
pub remove_node-Removed :
    (fuel : ℕ) (list : RequestList) (q : ℕ) (xs : List ℕ) (p : ℕ) (ys : List ℕ)
    → length xs < fuel
    → Holds list (q ∷ (xs ++ p ∷ ys))
    → Removed list.cell p (q ∷ (xs ++ ys)) (remove_node fuel list p)
remove_node-Removed fuel list q xs p ys h v =
    let w = Chain-Unlinks fuel list.cell list.head q xs p ys h v.chain v.distinct in
    let (d, apart, below) = Distinct-middle (q ∷ xs) p ys v.distinct in
    record {
      list = without list w;
      returns =
          remove_node_behind fuel list q p v.chain.0
            (rw (is_ptr-other list.head q p v.chain.0 apart.0) refl)
          ∙ unlink-eq list w;
      holds = record {
        chain = w.chain;
        tail_last = rw v.tail_last (new_tail q xs p ys w.node below w.is_last);
        distinct = d;
      };
      freed =
          update_self (update list.cell w.node (some (record w.held { next = w.gone.next }))) p
            none;
      same = unlinked-same list.cell w.node p w.held w.gone.next w.at_node;
    }

-- Removing the only request leaves the empty list, and frees it.
pub remove_node_only :
    (fuel : ℕ) (list : RequestList) (p : ℕ)
    → Holds list (p ∷ [])
    → Removed list.cell p [] (remove_node fuel list p)
unfolding remove_node
remove_node_only fuel list p v =
    let (e, r, g, rest) = v.chain in
    record {
      list = record { cell = update list.cell p none; head = none; tail = none };
      returns = rw e (rw v.tail_last (rw (==_self, g) refl));
      holds = record { chain = refl; tail_last = refl; distinct = tt };
      freed = update_self list.cell p none;
      same = λ q r' n h. (r', update_ne list.cell p q none (λ i. n (sym i)) ∙ h, refl);
    }

and_false : (b : Bool) → (b && false) ≡ false
and_false true = refl
and_false false = refl

find_previous-fault :
    (fuel : ℕ) (cell : Heap FileRequest) (ptr : Option ℕ) (xs : List ℕ) (p : ℕ)
    → length xs < fuel
    → Chain cell ptr xs
    → All (λ x. x ≢ p) (drop 1 xs)
    → find_previous fuel cell ptr p ≡ fault
unfolding find_previous
find_previous-fault zero cell ptr xs p h c n = absurd (omega arith)
find_previous-fault (suc fuel) cell ptr [] p h c n = rw c refl
find_previous-fault (suc fuel) cell ptr (x ∷ []) p h c n =
    let (e, s, g, rest) = c in
    rw e (
      rw (g, find_previous)
        (rw rest (find_previous-fault fuel cell s.next [] p (omega arith) rest tt)))
find_previous-fault (suc fuel) cell ptr (x ∷ y ∷ xs) p h c n =
    let (e, s, g, rest) = c in
    rw e (
      rw (g, find_previous)
        (rw (is_ptr-other s.next y p rest.0 n.0)
          (find_previous-fault fuel cell s.next (y ∷ xs) p (omega arith) rest n.1)))

-- With enough fuel to reach the end of the list, the first of several requests is not removed: the
-- walk starts at it, looks for it behind, and goes through the null pointer at the end of the
-- list.
pub remove_node_first :
    (fuel : ℕ) (list : RequestList) (p q : ℕ) (ys : List ℕ)
    → suc (suc (length ys)) < fuel
    → Holds list (p ∷ q ∷ ys)
    → remove_node fuel list p ≡ fault
unfolding unlink
remove_node_first fuel list p q ys h v =
    let tail_other : is_ptr list.tail p ≡ false =
      rw v.tail_last (is_ptr-last p (q ∷ ys) v.distinct.0) in
    remove_node_behind fuel list p p v.chain.0 (rw tail_other (and_false (is_ptr list.head p)))
    ∙ rw
        (find_previous-fault fuel list.cell list.head (p ∷ q ∷ ys) p (omega arith) v.chain
          (All-mono _ _ (q ∷ ys) (λ x n e. n (sym e)) v.distinct.0))
        refl
