-- ===== src/Raft/Stale.antt =====
-- kvstore/raftex/Host.cpp: what a caller is told whose request waits while the peer finds another one stale.
use nebula_storage.Prelude.{
  ℕ, ◌<◌, ◌≤◌, ◌≡◌, refl, sym, ap, subst, true, false, ◌&&◌, List, [], ◌∷◌, ◌++◌, some, arith, leb,
  length,
}
use nebula_storage.Wal.{Wal}
use nebula_storage.Raft.{ErrorCode}
use nebula_storage.Raft.Sender.{
  Sender, accepted, Reply, Done, check_status, is_accepted, send, set_response, first_time,
  host_append_logs, on_log_stale, on_code, receive_reply,
}

-- A host that is ready, with no request under way.
pub record IsIdle (h : Sender) : Type 0 where
  pub active : (h.stopped ≡ false) × (h.paused ≡ false)
  pub free : h.request_on_going ≡ false
  pub nobody : (h.promise ≡ []) × (h.caching_promise ≡ [])

-- Two calls of appendLogs, the second while the request of the first is under way, and the peer's reply to this one.
abbrev pub two_calls : ℕ → ℕ → Wal → ℕ → ℕ → ℕ → ℕ → ℕ → ℕ → Reply → Sender → Done
two_calls max outstanding wal term i j committed prev_term prev_id r h =
    let one = host_append_logs max outstanding wal term i committed prev_term prev_id h in
    let two = host_append_logs max outstanding wal term j committed prev_term prev_id one.host in
    receive_reply max wal (some r) two.host

-- A request up to `i` is under way, for those in `ws`, and those in `cs` wait for the next one.
record IsSending (h : Sender) (i : ℕ) (ws cs : List ℕ) : Type 0 where
  active : (h.stopped ≡ false) × (h.paused ≡ false)
  going : h.request_on_going ≡ true
  queues : (h.promise ≡ ws) × (h.caching_promise ≡ cs)
  upto : h.log_id_to_send ≡ i
  sent : h.last_log_id_sent < i

first_time-fields :
    (prev_term prev_id i : ℕ)
    → (h : Sender) → IsIdle h
    → h.last_log_id_sent < i
    → prev_id < i
    → (((first_time prev_term prev_id h).stopped ≡ false)
        × ((first_time prev_term prev_id h).paused ≡ false))
      × ((first_time prev_term prev_id h).caching_promise ≡ [])
      × ((first_time prev_term prev_id h).last_log_id_sent < i)
first_time-fields prev_term prev_id i h idle a b =
    let (x, y) = idle.active in
    let (_, z) = idle.nobody in ((ground arith, ground arith), ground arith, ground arith)

first-IsSending :
    (max outstanding : ℕ)
    → (wal : Wal) → (term i committed prev_term prev_id : ℕ) → (h : Sender) → IsIdle h
    → h.last_log_id_sent < i
    → prev_id < i
    → IsSending
        (host_append_logs max outstanding wal term i committed prev_term prev_id h).host
        i
        (i ∷ [])
        []
unfolding host_append_logs send
first-IsSending max outstanding wal term i committed prev_term prev_id h idle a b =
    let (x, y) = idle.active in
    let (st, ca, la) = first_time-fields prev_term prev_id i h idle a b in
    let new : leb i h.last_log_id_sent ≡ false = ground arith in
    let off = idle.free in
    let free : (h.request_on_going && is_accepted (check_status h)) ≡ false = rw off refl in
    let fit : is_accepted (check_status h) ≡ true = rw (x, y) refl in
    rw (new, free, fit)
      (record {
        active = st;
        going = refl;
        queues = (ap (λ (l : List ℕ). l ++ i ∷ []) ca, refl);
        upto = refl;
        sent = la;
      })

second-IsSending :
    (max outstanding : ℕ)
    → (wal : Wal) → (term i j committed prev_term prev_id : ℕ) → (h : Sender)
    → IsSending h i (i ∷ []) []
    → i < j
    → IsSending
        (host_append_logs max outstanding wal term j committed prev_term prev_id h).host
        i
        (i ∷ [])
        (j ∷ [])
unfolding host_append_logs
second-IsSending max outstanding wal term i j committed prev_term prev_id h s b =
    let (x, y) = s.active in
    let (p, c) = s.queues in
    let less = s.sent in
    let new : leb j h.last_log_id_sent ≡ false = ground arith in
    let room : leb (length h.caching_promise) outstanding ≡ true = rw c (ground arith) in
    let on = s.going in
    let busy : (h.request_on_going && is_accepted (check_status h)) ≡ true = rw (on, x, y) refl in
    rw (new, busy, room)
      (record {
        active = (x, y);
        going = s.going;
        queues = (p, ap (λ (l : List ℕ). l ++ j ∷ []) c);
        upto = s.upto;
        sent = less;
      })

stale-told :
    (max : ℕ)
    → (wal : Wal) → (i j : ℕ) → (r : Reply) → (h : Sender) → IsSending h i (i ∷ []) (j ∷ [])
    → i ≤ r.last_log_id
    → (on_code max wal r h ErrorCode.e_log_stale).told ≡ (i, accepted) ∷ (j, accepted) ∷ []
unfolding on_log_stale set_response
stale-told max wal i j r h s c =
    let (x, y) = s.active in
    let (p, q) = s.queues in
    let upto = s.upto in
    let reached : leb h.log_id_to_send r.last_log_id ≡ true = ground arith in
    rw (x, y, reached, p, q) refl

-- A peer that replies to a request that its log is ahead, at the request's last id or behind it, has the caller
-- of a later request, whose logs wait for this reply, told that they are accepted, also where they reach beyond
-- the peer's log.
pub two_calls-told :
    (max outstanding : ℕ)
    → (wal : Wal) → (term i j committed prev_term prev_id : ℕ) → (r : Reply) → (h : Sender)
    → IsIdle h
    → h.last_log_id_sent < i
    → prev_id < i
    → i ≤ r.last_log_id
    → r.last_log_id < j
    → r.code ≡ ErrorCode.e_log_stale
    → (two_calls max outstanding wal term i j committed prev_term prev_id r h).told
      ≡ (i, accepted) ∷ (j, accepted) ∷ []
unfolding receive_reply
two_calls-told max outstanding wal term i j committed prev_term prev_id r h idle a b c d e =
    let one = host_append_logs max outstanding wal term i committed prev_term prev_id h in
    let two = host_append_logs max outstanding wal term j committed prev_term prev_id one.host in
    let first = first-IsSending max outstanding wal term i committed prev_term prev_id h idle a b in
    let second =
      second-IsSending max outstanding wal term i j committed prev_term prev_id one.host first
        (omega (arith, c, d)) in
    subst
      (λ (k : ErrorCode). (on_code max wal r two.host k).told ≡ (i, accepted) ∷ (j, accepted) ∷ [])
      (sym e) (stale-told max wal i j r two.host second c)
