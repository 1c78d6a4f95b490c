-- ===== src/RequestList/Tests.antt =====
-- A list of three requests, and the theorems of the list at it.
use multiplexing_server.Base.{
  ℕ, ◌≡◌, refl, Option, none, some, [], ◌∷◌, ok, fault, ◌==◌, if◌then◌else◌, arith,
}
use multiplexing_server.Links.{Heap}
use multiplexing_server.RequestList.{FileRequest, RequestList, add, find, remove_node}
use multiplexing_server.RequestList.Chain.{Holds}
use multiplexing_server.RequestList.Add.{Keeps, add-Keeps}
use multiplexing_server.RequestList.Find.{Found, find-Found}
use multiplexing_server.RequestList.Remove.{Removed, remove_node-Removed, remove_node_first}

abbrev request : ℕ → Option ℕ → FileRequest
request session_id next = record {
  session_id = session_id;
  offset = 0;
  length = 8;
  file_name = b'a' ∷ [];
  num_connect = 0;
  next = next;
}

-- The request at address 4 is not in the list.
abbrev cells : Heap FileRequest
cells p =
    if p == 1
    then some (request 11 (some 2))
    else if p == 2
    then some (request 22 (some 3))
    else if p == 3
    then some (request 33 none)
    else if p == 4
    then some (request 44 none)
    else none

abbrev pub three : RequestList
three = record { cell = cells; head = some 1; tail = some 3 }

pub three-Holds : Holds three (1 ∷ 2 ∷ 3 ∷ [])
three-Holds = record {
  chain = (
    refl,
    request 11 (some 2),
    refl,
    (refl, request 22 (some 3), refl, (refl, request 33 none, refl, refl)),
  );
  tail_last = refl;
  distinct = ((omega arith, (omega arith, tt)), ((omega arith, tt), (tt, tt)));
}

find-Found_example :
    (result : Option ℕ) × (find 5 three 22 ≡ ok result) × Found cells 22 (1 ∷ 2 ∷ 3 ∷ []) result
find-Found_example = find-Found 5 three 22 (1 ∷ 2 ∷ 3 ∷ []) (omega arith) three-Holds

add-Keeps_example : Keeps cells (1 ∷ 2 ∷ 3 ∷ 4 ∷ []) (add three 4)
add-Keeps_example =
    add-Keeps three 4 (request 44 none) (1 ∷ 2 ∷ 3 ∷ []) three-Holds
      (omega arith, (omega arith, (omega arith, tt))) refl refl

remove_node-Removed_example : Removed cells 2 (1 ∷ 3 ∷ []) (remove_node 5 three 2)
remove_node-Removed_example = remove_node-Removed 5 three 1 [] 2 (3 ∷ []) (omega arith) three-Holds

remove_node_first_run : remove_node 5 three 1 ≡ fault
remove_node_first_run = remove_node_first 5 three 1 2 (3 ∷ []) (omega arith) three-Holds
