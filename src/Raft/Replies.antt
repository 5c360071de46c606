-- ===== src/Raft/Replies.antt =====
-- kvstore/raftex/Host.cpp: who waits for a peer, and who is told what.
use nebula_storage.Prelude.{
  ℕ, ◌<◌, ◌≡◌, ◌≢◌, refl, sym, ap, ◌∙◌, subst, Bool, true, false, ◌&&◌, List, [], ◌∷◌, ◌++◌, map,
  Option, none, some, arith, leb, ltb, ◌==◌, length, if◌then◌else◌, append-nil, append_assoc, ◌⊎◌,
  inl, inr, Bool-cases,
}
use nebula_storage.Wal.{Wal}
use nebula_storage.Raft.{ErrorCode}
use nebula_storage.Raft.Sender.{
  Pending, Sender, Told, accepted, Reply, Done, check_status, is_accepted, tell_all, no_request,
  send, stay, set_response, first_time, start_request, host_append_logs, follow_reply, next_pending,
  on_succeeded, on_log_gap, on_waiting_snapshot, on_log_stale, on_failure, if_in_status, on_code,
  send_append_log_request, receive_reply,
}

-- Whose requests have not been answered.
abbrev pub waiting : Sender → List ℕ
waiting h = h.promise ++ h.caching_promise

abbrev pub ids_of : List (ℕ × Told) → List ℕ
ids_of told = map (λ (x : ℕ × Told). x.0) told

-- Nobody waits while no request is under way, and nobody waits for a pending request that there is not.
pub record IsServing (h : Sender) : Type 0 where
  pub idle : h.request_on_going ≡ false → waiting h ≡ []
  pub kept : no_request h ≡ true → h.caching_promise ≡ []

-- What a reply comes to: the waiting are told or wait on in their order, and while one waits a request is on its way.
pub record Served (h : Sender) (d : Done) : Type 0 where
  pub serving : IsServing d.host
  pub told : ids_of d.told ++ waiting d.host ≡ waiting h
  pub goes_on :
      (d.host.request_on_going ≡ true × d.request ≢ none) ⊎ (d.host.request_on_going ≡ false)

ids_of-tell_all : (t : Told) → (ids : List ℕ) → ids_of (tell_all t ids) ≡ ids
ids_of-tell_all t [] = refl
ids_of-tell_all t (i ∷ is) = ap (λ (l : List ℕ). i ∷ l) (ids_of-tell_all t is)

-- The fields that decide who waits.
pub record SameQueue (g h : Sender) : Type 0 where
  pub promise : g.promise ≡ h.promise
  pub caching : g.caching_promise ≡ h.caching_promise
  pub pending : g.pending ≡ h.pending
  pub going : g.request_on_going ≡ h.request_on_going

same-waiting : (g h : Sender) → SameQueue g h → waiting g ≡ waiting h
same-waiting g h q = rw (q.promise, q.caching) refl

set_response-Served : (t : Told) → (g h : Sender) → SameQueue g h → Served h (set_response t g)
unfolding set_response
set_response-Served t g h q = record {
  serving = record { idle = λ e. refl; kept = λ e. refl };
  told = append-nil _ ∙ (ids_of-tell_all t (waiting g) ∙ same-waiting g h q);
  goes_on = inr refl;
}

going-on : false ≢ true
going-on e = cc

same-request : (g h : Sender) → SameQueue g h → no_request g ≡ true → no_request h ≡ true
same-request g h q e =
    subst (λ (x : Pending). (x.term == 0 && x.log_id == 0 && x.committed == 0) ≡ true) q.pending e

send-Served :
    (max : ℕ)
    → (wal : Wal) → (g h : Sender) → SameQueue g h
    → IsServing h
    → h.request_on_going ≡ true
    → Served h (send max wal [] g)
unfolding send
send-Served max wal g h q s on = record {
  serving = record {
    idle = λ e. absurd (going-on (sym e ∙ (q.going ∙ on)));
    kept = λ e. q.caching ∙ s.kept (same-request g h q e);
  };
  told = same-waiting g h q;
  goes_on = inl (q.going ∙ on, λ e. cc);
}

same : (h : Sender) → SameQueue h h
same h = record { promise = refl; caching = refl; pending = refl; going = refl }

if-Served :
    {h : Sender}
    → (b : Bool) → (x y : Done) → Served h x
    → Served h y
    → Served h (if b then x else y)
if-Served true x y p q = p
if-Served false x y p q = q

next_pending-Served :
    (max : ℕ)
    → (wal : Wal) → (g h : Sender) → SameQueue g h
    → IsServing h
    → h.request_on_going ≡ true
    → Served h (next_pending max wal g)
unfolding next_pending send
next_pending-Served max wal g h q s on = elim (Bool-cases (no_request g)) [
  | inl none_left ↦ rw none_left (record {
    serving = record {
      idle = λ e. q.caching ∙ s.kept (same-request g h q none_left);
      kept = λ e. q.caching ∙ s.kept (same-request g h q none_left);
    };
    told =
        ap (λ (l : List ℕ). l ++ g.caching_promise) (ids_of-tell_all accepted g.promise)
        ∙ same-waiting g h q;
    goes_on = inr refl;
  })
  | inr more ↦ rw more (record {
    serving = record { idle = λ e. absurd (going-on (sym e ∙ (q.going ∙ on))); kept = λ e. refl };
    told =
        ap (λ (l : List ℕ). l ++ (g.caching_promise ++ [])) (ids_of-tell_all accepted g.promise)
        ∙ (ap (λ (l : List ℕ). g.promise ++ l) (append-nil g.caching_promise) ∙ same-waiting g h q);
    goes_on = inl (q.going ∙ on, λ e. cc);
  })
]

on_succeeded-Served :
    (max : ℕ)
    → (wal : Wal) → (r : Reply) → (h : Sender) → IsServing h
    → h.request_on_going ≡ true
    → Served h (on_succeeded max wal r h)
unfolding on_succeeded
on_succeeded-Served max wal r h s on =
    let g = follow_reply r.last_log_id r h in
    let q : SameQueue g h = record {
      promise = refl;
      caching = refl;
      pending = refl;
      going = refl;
    } in
    if-Served (leb r.last_log_id h.last_log_id_sent) _ _
      (set_response-Served accepted _ h
        (record { promise = refl; caching = refl; pending = refl; going = refl }))
      (if-Served (ltb r.last_log_id h.log_id_to_send) _ _ (send-Served max wal g h q s on)
        (next_pending-Served max wal g h q s on))

on_log_gap-Served :
    (max : ℕ)
    → (wal : Wal) → (r : Reply) → (h : Sender) → IsServing h
    → h.request_on_going ≡ true
    → Served h (on_log_gap max wal r h)
unfolding on_log_gap
on_log_gap-Served max wal r h s on =
    if-Served (h.last_log_id_sent == r.last_log_id) _ _
      (set_response-Served accepted _ h
        (record { promise = refl; caching = refl; pending = refl; going = refl }))
      (send-Served max wal _ h
        (record { promise = refl; caching = refl; pending = refl; going = refl }) s on)

on_waiting_snapshot-Served :
    (max : ℕ)
    → (wal : Wal) → (r : Reply) → (h : Sender) → IsServing h
    → h.request_on_going ≡ true
    → Served h (on_waiting_snapshot max wal r h)
unfolding on_waiting_snapshot
on_waiting_snapshot-Served max wal r h s on =
    send-Served max wal _ h
      (record { promise = refl; caching = refl; pending = refl; going = refl }) s on

on_log_stale-Served :
    (max : ℕ)
    → (wal : Wal) → (r : Reply) → (h : Sender) → IsServing h
    → h.request_on_going ≡ true
    → Served h (on_log_stale max wal r h)
unfolding on_log_stale
on_log_stale-Served max wal r h s on =
    if-Served (leb h.log_id_to_send r.last_log_id) _ _
      (set_response-Served accepted _ h
        (record { promise = refl; caching = refl; pending = refl; going = refl }))
      (send-Served max wal _ h
        (record { promise = refl; caching = refl; pending = refl; going = refl }) s on)

on_failure-Served : (t : Told) → (h : Sender) → Served h (on_failure t h)
unfolding on_failure
on_failure-Served t h =
    set_response-Served t _ h
      (record { promise = refl; caching = refl; pending = refl; going = refl })

if_in_status-Served : (d : Done) → (h : Sender) → Served h d → Served h (if_in_status d h)
if_in_status-Served d h s =
    if-Served (is_accepted (check_status h)) _ _ s
      (set_response-Served (check_status h) h h (same h))

done_or : Done → Option Done → Done
done_or d none = d
done_or d (some e) = e

on_code-Served :
    (max : ℕ)
    → (wal : Wal) → (r : Reply) → (h : Sender) → (c : ErrorCode) → IsServing h
    → h.request_on_going ≡ true
    → Served h (on_code max wal r h c)
on_code-Served max wal r h ErrorCode.succeeded s on =
    if_in_status-Served _ h (on_succeeded-Served max wal r h s on)
on_code-Served max wal r h ErrorCode.e_log_gap s on =
    if_in_status-Served _ h (on_log_gap-Served max wal r h s on)
on_code-Served max wal r h ErrorCode.e_waiting_snapshot s on =
    if_in_status-Served _ h (on_waiting_snapshot-Served max wal r h s on)
on_code-Served max wal r h ErrorCode.e_log_stale s on =
    if_in_status-Served _ h (on_log_stale-Served max wal r h s on)
on_code-Served max wal r h ErrorCode.e_bad_state s on = on_failure-Served _ h
on_code-Served max wal r h ErrorCode.e_not_ready s on = on_failure-Served _ h
on_code-Served max wal r h ErrorCode.e_bad_role s on = on_failure-Served _ h
on_code-Served max wal r h ErrorCode.e_term_out_of_date s on = on_failure-Served _ h
on_code-Served max wal r h ErrorCode.e_wrong_leader s on = on_failure-Served _ h
on_code-Served max wal r h ErrorCode.e_wal_fail s on = on_failure-Served _ h
on_code-Served max wal r h ErrorCode.e_persist_snapshot_failed s on = on_failure-Served _ h

-- So too where the request of a host is not sent.
send_append_log_request-Served :
    (h : Sender) → (d : Done) → send_append_log_request h ≡ some d → Served h d
unfolding send_append_log_request done_or
send_append_log_request-Served h d e = elim (Bool-cases (is_accepted (check_status h))) [
  | inl fit ↦ absurd (ground arith)
  | inr unfit ↦
      let sent : some (on_failure (check_status h) h) ≡ some d = rw unfit at e in
      subst (Served h) (ap (done_or d) sent) (on_failure-Served (check_status h) h)
]

-- Whatever a peer replies, and if the call of it fails: everybody who waits is told something or waits on, nobody twice,
-- and where somebody waits on the next request is on its way; where none is, nobody waits.
pub receive_reply-Served :
    (max : ℕ)
    → (wal : Wal) → (o : Option Reply) → (h : Sender) → IsServing h
    → h.request_on_going ≡ true
    → Served h (receive_reply max wal o h)
unfolding receive_reply
receive_reply-Served max wal none h s on = on_failure-Served _ h
receive_reply-Served max wal (some r) h s on = on_code-Served max wal r h r.code s on

-- What a call of appendLogs comes to: it is told at once and nobody else is concerned, or it waits behind those who wait.
pub data Queued (h : Sender) (id : ℕ) (d : Done) : Type 0 where
  told_now : {t : Told} → d.told ≡ (id, t) ∷ [] → d.host ≡ h → Queued h id d
  waits :
      d.told ≡ []
      → waiting d.host ≡ waiting h ++ id ∷ []
      → d.host.request_on_going ≡ true
      → IsServing d.host
      → Queued h id d

and-left : (a b : Bool) → a && b ≡ true → a ≡ true
and-left true b e = refl
and-left false b e = e

not-both : (a b : Bool) → a && b ≡ false → b ≡ true → a ≡ false
not-both true b e t = absurd (going-on (sym e ∙ t))
not-both false b e t = refl

no_more : (xs ys : List ℕ) → xs ++ ys ≡ [] → ys ≡ []
no_more [] ys e = e
no_more (x ∷ xs) ys e = absurd (omega (arith, ap length e))

first_time-caching :
    (prev_term prev_id : ℕ)
    → (h : Sender) → (first_time prev_term prev_id h).caching_promise ≡ h.caching_promise
first_time-caching prev_term prev_id h = ground arith

-- A request that starts has the caller alone waiting for it.
starts-Queued :
    (max : ℕ)
    → (wal : Wal) → (term id committed prev_term prev_id : ℕ) → (h : Sender) → IsServing h
    → h.request_on_going ≡ false
    → Queued h id
        (send max wal [] (start_request term id committed (first_time prev_term prev_id h)))
unfolding send
starts-Queued max wal term id committed prev_term prev_id h s off =
    let alone = s.idle off in
    let cached =
      first_time-caching prev_term prev_id h ∙ no_more h.promise h.caching_promise alone in
    waits refl (rw (cached, alone) refl) refl
      (record { idle = λ e. absurd (going-on (sym e)); kept = λ e. refl })

-- A request that is kept has its caller wait behind the others.
keeps-Queued :
    (term id committed : ℕ)
    → (h : Sender) → 0 < id
    → h.request_on_going ≡ true
    → Queued h id (
        stay [] (record h {
          pending = record { term = term; log_id = id; committed = committed };
          caching_promise = h.caching_promise ++ id ∷ [];
        }))
keeps-Queued term id committed h some_log on =
    waits refl (sym (append_assoc h.promise h.caching_promise (id ∷ []))) on
      (record { idle = λ e. absurd (going-on (sym e ∙ on)); kept = λ e. absurd (ground arith) })

if-Queued :
    {h : Sender}
    → {id : ℕ} → (b : Bool) → (x y : Done) → Queued h id x
    → Queued h id y
    → Queued h id (if b then x else y)
if-Queued true x y p q = p
if-Queued false x y p q = q

-- A call of appendLogs on a peer's host is told at once and changes nothing, or it waits behind those who wait
-- while a request is under way.
host_append_logs-Queued :
    (max outstanding : ℕ)
    → (wal : Wal) → (term id committed prev_term prev_id : ℕ) → (h : Sender) → IsServing h
    → Queued h id (host_append_logs max outstanding wal term id committed prev_term prev_id h)
unfolding host_append_logs
host_append_logs-Queued max outstanding wal term id committed prev_term prev_id h s =
    elim (Bool-cases (leb id h.last_log_id_sent)) [
      | inl sent ↦ rw sent (told_now refl refl)
      | inr new ↦ elim (Bool-cases (h.request_on_going && is_accepted (check_status h))) [
        | inl busy ↦
            rw (new, busy)
              (if-Queued (leb (length h.caching_promise) outstanding) _ _
                (keeps-Queued term id committed h (ground arith)
                  (and-left h.request_on_going _ busy))
                (told_now refl refl))
        | inr free ↦ elim (Bool-cases (is_accepted (check_status h))) [
          | inl fit ↦
              rw (new, free, fit)
                (starts-Queued max wal term id committed prev_term prev_id h s
                  (not-both h.request_on_going _ free fit))
          | inr unfit ↦ rw (new, free, unfit) (told_now refl refl)
        ]
      ]
    ]
