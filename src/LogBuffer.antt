-- ===== src/LogBuffer.antt =====
-- kvstore/wal/AtomicLogBuffer.h as its single writer sees it: the list of nodes from `head_` on.
-- A node's records are those before its `pos_`. Memory order, reference counts and the deletion of
-- dirty nodes are not modelled; the int32_t sizes are numbers that do not wrap.
use nebula_storage.Prelude.{
  ℕ, suc, ◌+◌, ◌-◌, ◌<◌, ◌≤◌, ◌≡◌, Bool, true, false, not, ◌&&◌, ◌||◌, List, [], ◌∷◌, ◌++◌, Option,
  none, some, length, get_elem?, ltb, leb, ◌==◌, if◌then◌else◌,
}
pub mod Laws
mod Tests

pub record Record : Type 0 where
  pub cluster_id : ℕ
  pub term_id : ℕ
  pub msg : List ℕ

-- Record::size.
abbrev pub record_size : Record → ℕ
record_size r = 8 + 8 + length r.msg

pub record Node : Type 0 where
  pub first_log_id : ℕ
  pub size : ℕ
  pub records : List Record
  pub mark_deleted : Bool

abbrev pub max_length : ℕ
max_length = 64

abbrev pub is_full : Node → Bool
is_full n = length n.records == max_length

abbrev pub node_push_back : Node → Record → Node
node_push_back n r = record n { size = n.size + record_size r; records = n.records ++ r ∷ [] }

-- Node::lastLogId: one past the last record that the node holds.
abbrev pub node_last_log_id : Node → ℕ
node_last_log_id n = n.first_log_id + length n.records

-- `live` are the nodes from `head_` to `tail_`, newest first, and `dirty` those behind `tail_`.
pub record LogBuffer : Type 0 where
  pub live : List Node
  pub dirty : List Node
  pub size : ℕ
  pub first_log_id : ℕ
  pub capacity : ℕ
  pub dirty_nodes : ℕ

abbrev pub instance_of : ℕ → LogBuffer
instance_of capacity = record {
  live = [];
  dirty = [];
  size = 0;
  first_log_id = 0;
  capacity = capacity;
  dirty_nodes = 0;
}

abbrev pub new_node : ℕ → Record → Node
new_node id r = record {
  first_log_id = id;
  size = record_size r;
  records = r ∷ [];
  mark_deleted = false;
}

-- A new node that is the first of the list.
abbrev pub push_first : LogBuffer → ℕ → Record → LogBuffer
push_first b id r = record b {
  live = new_node id r ∷ [];
  dirty = b.live ++ b.dirty;
  size = b.size + record_size r;
  first_log_id = id;
}

-- A new node in front of a full one.
abbrev pub push_node : LogBuffer → ℕ → Record → LogBuffer
push_node b id r = record b { live = new_node id r ∷ b.live; size = b.size + record_size r }

-- The nodes behind the head without the last of them, the tail, and the tail. The last node kept is
-- `tail->prev_`.
unfoldable pub split_tail : Node → List Node → List Node × Node
split_tail n [] = ([], n)
split_tail n (m ∷ ms) = let (kept, t) = split_tail m ms in (n ∷ kept, t)

unfoldable pub last_first_id : Node → List Node → ℕ
last_first_id n [] = n.first_log_id
last_first_id n (m ∷ ms) = last_first_id m ms

-- The buffer is over its capacity and has more than one node: the tail is marked as deleted.
unfoldable pub drop_tail : LogBuffer → Node → Node → List Node → LogBuffer
drop_tail b head n ns =
    let (kept, tail) = split_tail n ns in
    record b {
      live = head ∷ kept;
      dirty = record tail { mark_deleted = true } ∷ b.dirty;
      first_log_id = last_first_id head kept;
      size = if tail.mark_deleted then b.size else b.size - tail.size;
      dirty_nodes = if tail.mark_deleted then b.dirty_nodes else b.dirty_nodes + 1;
    }

abbrev pub make_room : LogBuffer → Node → List Node → ℕ → LogBuffer
make_room b head [] rec_size = b
make_room b head (n ∷ ns) rec_size =
    if ltb b.capacity (b.size + rec_size) then drop_tail b head n ns else b

abbrev pub push_head : LogBuffer → Record → LogBuffer
push_head b r = record b {
  live = elim b.live [ [] ↦ [] | n ∷ ns ↦ node_push_back n r ∷ ns ];
  size = b.size + record_size r;
}

abbrev pub push_nodes : LogBuffer → List Node → ℕ → Record → LogBuffer
push_nodes b [] id r = push_first b id r
push_nodes b (head ∷ rest) id r =
    if head.mark_deleted
    then push_first b id r
    else if is_full head
    then push_node b id r
    else push_head (make_room b head rest (record_size r)) r

unfoldable pub push : LogBuffer → ℕ → Record → LogBuffer
push b id r = push_nodes b b.live id r

unfoldable pub last_log_id : LogBuffer → ℕ
last_log_id b = elim b.live [ [] ↦ 0 | head ∷ _ ↦ node_last_log_id head ]

-- The loop of `reset` marks nodes up to one that is marked already.
unfoldable pub mark_until : List Node → List Node
mark_until [] = []
mark_until (n ∷ ns) =
    let rest = mark_until ns in
    if n.mark_deleted then n ∷ ns else record n { mark_deleted = true } ∷ rest

unfoldable pub count_until : List Node → ℕ
count_until [] = 0
count_until (n ∷ ns) = let rest = count_until ns in if n.mark_deleted then 0 else 1 + rest

-- The loop goes on behind the tail where it has marked all live nodes.
unfoldable pub reset : LogBuffer → LogBuffer
reset b =
    let through = count_until b.live == length b.live in
    record b {
      live = mark_until b.live;
      dirty = if through then mark_until b.dirty else b.dirty;
      size = 0;
      first_log_id = 0;
      dirty_nodes =
          b.dirty_nodes + count_until b.live + (if through then count_until b.dirty else 0);
    }

-- The scan of `seek` from the head to the tail, and what follows it.
unfoldable pub seek_nodes : List Node → List Node → ℕ → Option Node
seek_nodes [] [] id = none
seek_nodes [] (d ∷ ds) id = if d.mark_deleted then none else some d
seek_nodes (n ∷ ns) dirty id =
    let rest = seek_nodes ns dirty id in
    if n.mark_deleted then none else if leb n.first_log_id id then some n else rest

unfoldable pub seek : LogBuffer → ℕ → Option Node
seek b id = if ltb (last_log_id b) id then none else seek_nodes b.live b.dirty id

-- What `Iterator::seek` finds: no node, a record, a slot that holds no record, or a failed CHECK.
pub data Found : Type 0 where
  absent empty_slot aborted : Found
  found : Record → Found

-- Node::rec.
unfoldable pub rec : Node → ℕ → Found
rec n i =
    if ltb (length n.records) i || i == max_length
    then aborted
    else elim (get_elem? n.records i) [ none ↦ empty_slot | some r ↦ found r ]

unfoldable pub iterator_seek : LogBuffer → ℕ → Found
iterator_seek b id = elim (seek b id) [ none ↦ absent | some n ↦ rec n (id - n.first_log_id) ]
