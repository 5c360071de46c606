-- ===== src/Raft/BatchLaws.antt =====
-- RaftPart.cpp, class AppendLogsIterator: what the batches of a leader hold.
use nebula_storage.Prelude.{
  ℕ, zero, suc, ◌+◌, ◌<◌, ◌≤◌, ◌≡◌, ◌≢◌, refl, sym, ap, ◌∙◌, subst, Bool, true, false, List, [],
  ◌∷◌, ◌++◌, Option, none, some, arith, length, ◌⊎◌, inl, inr,
}
use nebula_storage.Wal.{LogEntry}
use nebula_storage.Raft.Batches.{
  CachedLog, LogsIterator, is_atomic, process_atomic_op, settle, new_iterator, resume, batches_of,
  initial, step_to, current, drain, batches, numbered, concat,
}

-- The current log's kind is known, and an operation has its result.
pub data IsHead (it : LogsIterator) : List CachedLog → Type 0 where
  head_plain :
      {l : CachedLog}
      → {ls : List CachedLog} → it.curr_log_type ≡ l.kind
      → is_atomic l.kind ≡ false
      → IsHead it (l ∷ ls)
  head_atomic :
      {l : CachedLog}
      → {ls : List CachedLog} → {r : List ℕ} → it.curr_log_type ≡ l.kind
      → is_atomic l.kind ≡ true
      → l.op ≡ some r
      → it.op_result ≡ some r
      → IsHead it (l ∷ ls)

abbrev pub IsReady : LogsIterator → Type 0
IsReady it = it.valid ≡ true → IsHead it it.logs

numbered-current :
    (it : LogsIterator)
    → (l : CachedLog) → (ls : List CachedLog) → IsHead it (l ∷ ls)
    → numbered it.log_id it.term (l ∷ ls) ≡ current it l ∷ numbered (it.log_id + 1) it.term ls
unfolding numbered
numbered-current it l ls (head_plain k a) = simp (k, a) refl
numbered-current it l ls (head_atomic k a o r) = simp (k, a, o, r) refl

step_to-IsReady : (it : LogsIterator) → (ls : List CachedLog) → IsReady (step_to it ls)
step_to-IsReady it [] e = absurd (cc)
step_to-IsReady it (l ∷ ls) e = head_plain refl (ground arith)

process-numbered :
    (id term : ℕ)
    → (ls : List CachedLog) → (o : Option (List ℕ))
    → numbered id term (process_atomic_op ls o).1.1 ≡ numbered id term ls
unfolding numbered process_atomic_op
process-numbered id term [] o = refl
process-numbered id term (l ∷ ls) o = ground (arith, process-numbered id term ls none)

process-length :
    (ls : List CachedLog) → (o : Option (List ℕ)) → length (process_atomic_op ls o).1.1 ≤ length ls
unfolding process_atomic_op
process-length [] o = omega arith
process-length (l ∷ ls) o = ground (arith, process-length ls none)

process-step-IsReady :
    (it : LogsIterator)
    → (l : CachedLog) → (ls : List CachedLog) → (o : Option (List ℕ))
    → IsReady (settle it (process_atomic_op ls none))
    → (b : Bool) → is_atomic l.kind ≡ b
    → (r : Option (List ℕ)) → l.op ≡ r
    → IsReady (settle it (process_atomic_op (l ∷ ls) o))
unfolding process_atomic_op
process-step-IsReady it l ls o h false a r e = rw a (λ v. head_plain refl a)
process-step-IsReady it l ls o h true a none e = rw (a, e) h
process-step-IsReady it l ls o h true a (some r) e = rw (a, e) (λ v. head_atomic refl a e refl)

process-IsReady :
    (it : LogsIterator)
    → (ls : List CachedLog) → (o : Option (List ℕ)) → IsReady (settle it (process_atomic_op ls o))
unfolding process_atomic_op
process-IsReady it [] o = λ e. absurd (cc)
process-IsReady it (l ∷ ls) o =
    process-step-IsReady it l ls o (process-IsReady it ls none) (is_atomic l.kind) refl l.op refl

settle-fields :
    (it : LogsIterator)
    → (w : Bool × (Option (List ℕ) × List CachedLog))
    → ((settle it w).logs ≡ w.1.1)
      × ((settle it w).log_id ≡ it.log_id)
      × ((settle it w).term ≡ it.term)
settle-fields it (lead, (r, [])) = (refl, refl, refl)
settle-fields it (lead, (r, l ∷ ls)) = (refl, refl, refl)

-- What the iterator still has to give.
abbrev pub to_come : LogsIterator → List LogEntry
to_come it = numbered it.log_id it.term it.logs

settle-to_come :
    (it : LogsIterator)
    → (ls : List CachedLog) → (o : Option (List ℕ))
    → to_come (settle it (process_atomic_op ls o)) ≡ numbered it.log_id it.term ls
settle-to_come it ls o =
    let (l, i, t) = settle-fields it (process_atomic_op ls o) in
    rw (l, i, t) (process-numbered it.log_id it.term ls o)

-- Settling leaves the iterator valid as long as there are logs.
settle-valid :
    (it : LogsIterator)
    → (w : Bool × (Option (List ℕ) × List CachedLog)) → (settle it w).logs ≢ []
    → (settle it w).valid ≡ true
settle-valid it (lead, (r, [])) h = absurd (h refl)
settle-valid it (lead, (r, l ∷ ls)) h = refl

-- What drain gives and what it leaves is what was to come, with fewer logs left where it gave some.
record Drained (fuel : ℕ) (it : LogsIterator) : Type 0 where
  split : (drain fuel it).0 ++ to_come (drain fuel it).1 ≡ to_come it
  shorter : length (drain fuel it).1.logs ≤ length it.logs
  progress :
      it.valid ≡ true → it.logs ≢ [] → fuel ≢ 0 → length (drain fuel it).1.logs < length it.logs
  ready : IsReady (drain fuel it).1

drain-nothing :
    (fuel : ℕ)
    → (it : LogsIterator) → (ls : List CachedLog) → it.logs ≡ ls
    → it.valid ≡ false ⊎ ls ≡ []
    → drain fuel it ≡ ([], it)
unfolding drain
drain-nothing zero it ls e c = refl
drain-nothing (suc fuel) it [] e c = simp e refl
drain-nothing (suc fuel) it (l ∷ ls) e (inl v) = simp (e, v) refl
drain-nothing (suc fuel) it (l ∷ ls) e (inr v) = absurd (cc)

drain-one :
    (fuel : ℕ)
    → (it : LogsIterator) → (l : CachedLog) → (ls : List CachedLog) → it.logs ≡ l ∷ ls
    → it.valid ≡ true
    → drain (suc fuel) it
      ≡ (current it l ∷ (drain fuel (step_to it ls)).0, (drain fuel (step_to it ls)).1)
unfolding drain
drain-one fuel it l ls e v = simp (e, v) refl

step_to-fields :
    (it : LogsIterator)
    → (ls : List CachedLog)
    → ((step_to it ls).logs ≡ ls)
      × ((step_to it ls).log_id ≡ it.log_id + 1)
      × ((step_to it ls).term ≡ it.term)
step_to-fields it [] = (refl, refl, refl)
step_to-fields it (l ∷ ls) = (refl, refl, refl)

stays-Drained :
    (fuel : ℕ)
    → (it : LogsIterator) → (ls : List CachedLog) → it.logs ≡ ls
    → it.valid ≡ false ⊎ ls ≡ []
    → IsReady it
    → Drained fuel it
stays-Drained fuel it ls e c h =
    let d = drain-nothing fuel it ls e c in
    record {
      split = rw d refl;
      shorter = rw d (omega arith);
      progress = λ v n f. absurd (elim c [ inl w ↦ cc | inr w ↦ n (e ∙ w) ]);
      ready = rw d h;
    }

moves-Drained :
    (fuel : ℕ)
    → (it : LogsIterator) → (l : CachedLog) → (ls : List CachedLog) → it.logs ≡ l ∷ ls
    → it.valid ≡ true
    → IsReady it
    → Drained fuel (step_to it ls)
    → Drained (suc fuel) it
moves-Drained fuel it l ls e v h rest =
    let d = drain-one fuel it l ls e v in
    let head = numbered-current it l ls (subst (λ (t : List CachedLog). IsHead it t) e (h v)) in
    let (a, b, c) = step_to-fields it ls in
    let less = rest.shorter in
    let split : current it l
          ∷ ((drain fuel (step_to it ls)).0 ++ to_come (drain fuel (step_to it ls)).1)
        ≡ to_come it =
      simp (rest.split, a, b, c, e, head) refl in
    record {
      split = rw d split;
      shorter = rw d (omega (arith, less, ap length a, ap length e));
      progress = λ w n f. rw d (omega (arith, less, ap length a, ap length e));
      ready = rw d rest.ready;
    }

drain-case :
    (fuel : ℕ)
    → (it : LogsIterator) → (ls : List CachedLog) → it.logs ≡ ls
    → (b : Bool) → it.valid ≡ b
    → IsReady it
    → ((it' : LogsIterator) → IsReady it' → Drained fuel it')
    → Drained (suc fuel) it
drain-case fuel it ls e false v h ih = stays-Drained (suc fuel) it ls e (inl v) h
drain-case fuel it [] e true v h ih = stays-Drained (suc fuel) it [] e (inr refl) h
drain-case fuel it (l ∷ ls) e true v h ih =
    moves-Drained fuel it l ls e v h (ih (step_to it ls) (step_to-IsReady it ls))

drain-Drained : (fuel : ℕ) → (it : LogsIterator) → IsReady it → Drained fuel it
unfolding drain
drain-Drained zero it h = record {
  split = refl;
  shorter = omega arith;
  progress = λ v n f. absurd (f refl);
  ready = h;
}
drain-Drained (suc fuel) it h =
    drain-case fuel it it.logs refl it.valid refl h (λ i r. drain-Drained fuel i r)

resume-come :
    (it : LogsIterator)
    → (ls : List CachedLog) → it.logs ≡ ls
    → (to_come (resume it) ≡ to_come it) × (length (resume it).logs ≤ length ls)
unfolding resume
resume-come it [] e = simp e (refl, omega arith)
resume-come it (l ∷ ls) e =
    let (p, q, r) = settle-fields it (process_atomic_op (l ∷ ls) it.op_result) in
    simp e (settle-to_come it (l ∷ ls) it.op_result, rw p (process-length (l ∷ ls) it.op_result))

resume-IsReady :
    (it : LogsIterator) → (ls : List CachedLog) → it.logs ≡ ls → IsReady it → IsReady (resume it)
unfolding resume
resume-IsReady it [] e h =
    simp e (subst (λ (t : List CachedLog). it.valid ≡ true → IsHead it t) e h)
resume-IsReady it (l ∷ ls) e h = simp e (process-IsReady it (l ∷ ls) it.op_result)

-- An iterator with logs left is valid: it does not stop between batches.
abbrev pub IsSettled : LogsIterator → Type 0
IsSettled it = it.logs ≢ [] → it.valid ≡ true

resume-IsSettled :
    (it : LogsIterator) → (ls : List CachedLog) → it.logs ≡ ls → IsSettled (resume it)
unfolding resume
resume-IsSettled it [] e = λ n. absurd (n (simp e refl))
resume-IsSettled it (l ∷ ls) e = simp e (settle-valid it (process_atomic_op (l ∷ ls) it.op_result))

cons-nil : {l : CachedLog} → {ls : List CachedLog} → (l ∷ ls) ≢ []
cons-nil {l} {ls} e = omega (arith, ap length e)

batches-round :
    (fuel : ℕ)
    → (it : LogsIterator) → (ls : List CachedLog) → it.logs ≡ ls
    → length ls ≤ suc fuel
    → IsReady it
    → IsSettled it
    → ((i : LogsIterator)
        → IsReady i
        → IsSettled i
        → length i.logs ≤ fuel
        → concat (batches fuel i) ≡ to_come i)
    → concat (batches_of (batches fuel) it ls) ≡ to_come it
unfolding numbered
batches-round fuel it [] e f h s ih = simp e refl
batches-round fuel it (l ∷ ls) e f h s ih =
    let size = suc (length ls) in
    let d = drain-Drained size it h in
    let left = (drain size it).1 in
    let full = λ (z : it.logs ≡ []). cons-nil (sym e ∙ z) in
    let less = d.progress (s full) full (omega arith) in
    let (come, shorter) = resume-come left left.logs refl in
    let enough : length (resume left).logs ≤ fuel = omega (arith, less, shorter, f, ap length e) in
    let rest =
      ih (resume left) (resume-IsReady left left.logs refl d.ready)
        (resume-IsSettled left left.logs refl) enough in
    rw (rest, come) d.split

batches-none :
    (it : LogsIterator)
    → (ls : List CachedLog) → it.logs ≡ ls
    → length it.logs ≤ 0
    → [] ≡ to_come it
unfolding numbered
batches-none it [] e f = simp e refl
batches-none it (l ∷ ls) e f = absurd (omega (arith, f, ap length e))

batches-to_come :
    (fuel : ℕ)
    → (it : LogsIterator) → IsReady it
    → IsSettled it
    → length it.logs ≤ fuel
    → concat (batches fuel it) ≡ to_come it
unfolding batches
batches-to_come zero it h s f = batches-none it it.logs refl f
batches-to_come (suc fuel) it h s f =
    batches-round fuel it it.logs refl f h s (λ i r t m. batches-to_come fuel i r t m)

-- The batches that a leader writes hold together exactly the logs that it was handed, in their order and
-- under consecutive ids from the first one, an atomic operation with its result and without those that
-- failed; as many rounds as there are logs are enough for it to have written all.
pub batches-new_iterator :
    (first term fuel : ℕ)
    → (logs : List CachedLog) → length logs ≤ fuel
    → concat (batches fuel (new_iterator first term logs)) ≡ numbered first term logs
unfolding new_iterator
batches-new_iterator first term fuel logs f =
    let start = initial first term logs in
    let (l, _, _) = settle-fields start (process_atomic_op logs none) in
    batches-to_come fuel (new_iterator first term logs) (process-IsReady start logs none)
      (settle-valid start (process_atomic_op logs none))
      (omega (arith, f, process-length logs none, ap length l))
    ∙ settle-to_come start logs none
