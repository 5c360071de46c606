-- ===== src/LogBuffer/Laws.antt =====
-- What a reader of kvstore/wal/AtomicLogBuffer.h finds at the newest id, and one past it.
use nebula_storage.Prelude.{
  ℕ, ◌+◌, ◌-◌, ◌<◌, ◌≤◌, ◌≡◌, refl, ap, ◌∙◌, false, List, [], ◌∷◌, ◌++◌, none, some, length,
  get_elem?, ltb, if◌then◌else◌, arith, length-append, Bool-cases, inl, inr,
}
use nebula_storage.LogBuffer.{
  Record, Node, record_size, LogBuffer, node_last_log_id, is_full, push, push_nodes, push_first,
  push_node, push_head, make_room, drop_tail, split_tail, new_node, node_push_back, seek,
  seek_nodes, iterator_seek, rec, last_log_id, max_length, found, empty_slot, aborted,
}

-- The id follows the newest one, where the buffer has a live node to put it in.
abbrev pub IsNext : List Node → ℕ → Type 0
IsNext [] id = Unit {0}
IsNext (head ∷ rest) id =
    head.mark_deleted ≡ false → (node_last_log_id head ≡ id) × (length head.records ≤ max_length)

get-last : (rs : List Record) (r : Record) → get_elem? (rs ++ r ∷ []) (length rs) ≡ some r
get-last [] r = refl
get-last (x ∷ rs) r = get-last rs r

get-past : (rs : List Record) → get_elem? rs (length rs) ≡ none
get-past [] = refl
get-past (x ∷ rs) = get-past rs

-- The scan stops at a live head that begins at or before the id.
seek-head :
    (b : LogBuffer) (head : Node) (rest : List Node) (id : ℕ)
    → b.live ≡ head ∷ rest
    → head.mark_deleted ≡ false
    → head.first_log_id ≤ id
    → id ≤ node_last_log_id head
    → seek b id ≡ some head
unfolding seek seek_nodes last_log_id
seek-head b head rest id live ok from to = rw live (ground arith)

rec-last :
    (n : Node) (rs : List Record) (r : Record)
    → n.records ≡ rs ++ r ∷ []
    → length rs < max_length
    → rec n (length rs) ≡ found r
unfolding rec
rec-last n rs r records room =
    rw records (let at = get-last rs r in let size = length-append rs (r ∷ []) in ground arith)

rec-end : (n : Node) → rec n (length n.records) ≡ (if is_full n then aborted else empty_slot)
unfolding rec
rec-end n = let out = get-past n.records in ground arith

seek-rec :
    (b : LogBuffer) (head : Node) (id : ℕ)
    → seek b id ≡ some head
    → iterator_seek b id ≡ rec head (id - head.first_log_id)
unfolding iterator_seek
seek-rec b head id e = rw (iterator_seek, e) refl

-- The last record of a live head is found under its id.
found-last :
    (b : LogBuffer) (head : Node) (rest : List Node) (rs : List Record) (id : ℕ) (r : Record)
    → b.live ≡ head ∷ rest
    → head.mark_deleted ≡ false
    → head.records ≡ rs ++ r ∷ []
    → head.first_log_id + length rs ≡ id
    → length rs < max_length
    → iterator_seek b id ≡ found r
found-last b head rest rs id r live ok records first room =
    let size = ap length records ∙ length-append rs (r ∷ []) in
    let at : id - head.first_log_id ≡ length rs = omega arith in
    seek-rec b head id (seek-head b head rest id live ok (omega arith) (omega arith))
    ∙ ap (rec head) at
    ∙ rec-last head rs r records room

make_room-live :
    (b : LogBuffer) (head : Node) (rest : List Node) (n : ℕ)
    → b.live ≡ head ∷ rest
    → (kept : List Node) × ((make_room b head rest n).live ≡ head ∷ kept)
unfolding drop_tail
make_room-live b head [] n live = ([], live)
make_room-live b head (m ∷ ms) n live = elim (Bool-cases (ltb b.capacity (b.size + n))) [
  | inl over ↦ ((split_tail m ms).0, rw over refl)
  | inr fits ↦ (m ∷ ms, rw fits live)
]

push_nodes-found :
    (b : LogBuffer) (id : ℕ) (r : Record) (ns : List Node)
    → b.live ≡ ns
    → IsNext ns id
    → iterator_seek (push_nodes b ns id r) id ≡ found r
push_nodes-found b id r [] live next =
    found-last (push_first b id r) (new_node id r) [] [] id r refl refl refl (omega arith)
      (omega arith)
push_nodes-found b id r (head ∷ rest) live next = elim (Bool-cases head.mark_deleted) [
  | inl dead ↦ rw dead (
      found-last (push_first b id r) (new_node id r) [] [] id r refl refl refl (omega arith)
        (omega arith))
  | inr ok ↦
      let (at, room) = next ok in
      elim (Bool-cases (is_full head)) [
        | inl full ↦
            rw (ok, full)
              (found-last (push_node b id r) (new_node id r) b.live [] id r refl refl refl
                (omega arith) (omega arith))
        | inr free ↦
            let (kept, front) = make_room-live b head rest (record_size r) live in
            let c = make_room b head rest (record_size r) in
            simp (ok, free)
              (found-last (push_head c r) (node_push_back head r) kept head.records id r
                (rw (push_head, front) refl) ok refl at (ground arith))
      ]
]

-- A record that is pushed under the next id is found under it, whether it begins a buffer, begins a
-- node or pushes the oldest node out.
pub push-iterator_seek :
    (b : LogBuffer) (id : ℕ) (r : Record)
    → IsNext b.live id
    → iterator_seek (push b id r) id ≡ found r
unfolding push
push-iterator_seek b id r next = push_nodes-found b id r b.live refl next

-- Where the newest node is not marked as deleted, the id one past the newest record is not
-- refused: a reader gets the unwritten slot behind the records, or the process aborts where the
-- node is full.
pub iterator_seek-end :
    (b : LogBuffer) (head : Node) (rest : List Node)
    → b.live ≡ head ∷ rest
    → head.mark_deleted ≡ false
    → iterator_seek b (last_log_id b) ≡ (if is_full head then aborted else empty_slot)
unfolding last_log_id
iterator_seek-end b head rest live ok =
    let end = node_last_log_id head in
    let at : end - head.first_log_id ≡ length head.records = omega arith in
    let here : last_log_id b ≡ end = rw live refl in
    ap (iterator_seek b) here
    ∙ seek-rec b head end (seek-head b head rest end live ok (omega arith) (omega arith))
    ∙ ap (rec head) at
    ∙ rec-end head
