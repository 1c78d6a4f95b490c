-- ===== src/RequestList.antt =====
-- multiplexlist.c: the list of file requests in progress, as pointers on a heap. Each function runs
-- under the list's lock, so it is one step here; the frees of `remove_node` come after the unlock,
-- and no other function touches the node then.
pub mod Chain
pub mod Find
pub mod Add
pub mod Unlink
pub mod Remove
pub mod Tests
use multiplexing_server.Base.{
  ℕ, zero, suc, Bool, true, false, ◌&&◌, Option, none, some, List, Outcome, ok, fault, unfinished,
  ◌>>=◌, or_fault, ◌==◌, if◌then◌else◌,
}
use multiplexing_server.Links.{Heap, update}

-- `struct file_request`, less its lock and its pipe. A pointer is `none` when it is null.
pub record FileRequest : Type 0 where
  pub session_id : ℕ
  pub offset : ℕ
  pub length : ℕ
  pub file_name : List ℕ
  pub num_connect : ℕ
  pub next : Option ℕ

-- `struct List`, and the heap that its pointers go to.
pub record RequestList : Type 0 where
  pub cell : Heap FileRequest
  pub head : Option ℕ
  pub tail : Option ℕ

-- `p->next = q`
pub set_next : Heap FileRequest → Option ℕ → Option ℕ → Outcome (Heap FileRequest)
set_next cell none q = fault
set_next cell (some p) q = do
  r ← or_fault (cell p)
  ok (update cell p (some (record r { next = q })))

abbrev pub is_ptr : Option ℕ → ℕ → Bool
is_ptr none p = false
is_ptr (some q) p = q == p

pub create : Heap FileRequest → RequestList
create cell = record { cell = cell; head = none; tail = none }

pub add : RequestList → ℕ → Outcome RequestList
add list input = elim list.head [
  | none ↦ ok (record list { head = some input; tail = some input })
  | some _ ↦ do
    cell ← set_next list.cell list.tail (some input)
    ok (record { cell = cell; head = list.head; tail = some input })
]

-- `while (node->next != input) node = node->next;`, and the node at which it stops.
pub find_previous : ℕ → Heap FileRequest → Option ℕ → ℕ → Outcome ℕ
find_previous zero cell ptr input = unfinished
find_previous (suc fuel) cell none input = fault
find_previous (suc fuel) cell (some p) input = elim (cell p) [
  | none ↦ fault
  | some r ↦ elim (is_ptr r.next input) [
    | true ↦ ok p
    | false ↦ find_previous fuel cell r.next input
  ]
]

-- The part of `remove_node` that unlinks a node behind the first.
pub unlink : ℕ → RequestList → ℕ → Outcome RequestList
unlink fuel list input = do
  node ← find_previous fuel list.cell list.head input
  r ← or_fault (list.cell input)
  cell ← set_next list.cell (some node) r.next
  ok (record {
    cell = update cell input none;
    head = list.head;
    tail = if is_ptr list.tail input then some node else list.tail;
  })

-- `free(input)` is the write of `none`. Freeing a node that is not allocated is a fault.
pub remove_node : ℕ → RequestList → ℕ → Outcome RequestList
remove_node fuel list input =
    if is_ptr list.head input && is_ptr list.tail input
    then (do
      r ← or_fault (list.cell input)
      ok (record { cell = update list.cell input none; head = none; tail = none }))
    else elim list.head [ none ↦ ok list | some _ ↦ unlink fuel list input ]

-- `while (curr != NULL)`: the first request with this session.
pub find_from : ℕ → Heap FileRequest → Option ℕ → ℕ → Outcome (Option ℕ)
find_from zero cell curr session = unfinished
find_from (suc fuel) cell none session = ok none
find_from (suc fuel) cell (some p) session = elim (cell p) [
  | none ↦ fault
  | some r ↦ elim (r.session_id == session) [
    | true ↦ ok (some p)
    | false ↦ find_from fuel cell r.next session
  ]
]

pub find : ℕ → RequestList → ℕ → Outcome (Option ℕ)
find fuel list session = find_from fuel list.cell list.head session
