-- ===== src/Raft/OneVote.antt =====
-- A row of votes asked of one replica by RaftPart::processAskForVoteRequest.
use nebula_storage.Prelude.{
  ℕ, ◌<◌, ◌≡◌, ◌≢◌, refl, sym, ap, ◌∙◌, subst, Bool, true, false, List, [], ◌∷◌, Option, some,
  arith, if◌then◌else◌, ◌⊎◌, inl, inr, Option-cases, All, ◌>>=◌, >>=-eq-some,
}
use nebula_storage.Wal.{Wal}
use nebula_storage.Raft.{no_addr, ErrorCode, RaftPart, VoteRequest, succeeded}
use nebula_storage.Raft.Vote.{
  process_ask_for_vote, answer_vote, refuse_vote, voted_for, vote_wal, MayVote, IsFree,
  refuse_vote_iff,
}

abbrev pub is_succeeded : ErrorCode → Bool
is_succeeded succeeded = true
is_succeeded _ = false

-- The requests that were granted, in their order.
abbrev pub granted : ErrorCode → VoteRequest → List VoteRequest → List VoteRequest
granted code r rs = if is_succeeded code then r ∷ rs else rs

-- Vote requests one after the other, with the time of each.
unfoldable pub run_votes : List (ℕ × VoteRequest) → RaftPart → Option (RaftPart × List VoteRequest)
run_votes [] p = some (p, [])
run_votes ((now, r) ∷ rs) p = do
  (p', code) ← process_ask_for_vote now r p
  (q, gs) ← run_votes rs p'
  some (q, granted code r gs)

-- What one request does to the voter: nothing, or it is granted and remembered.
data Voted (now : ℕ) (r : VoteRequest) (p p' : RaftPart) (code : ErrorCode) : Type 0 where
  refused : is_succeeded code ≡ false → p' ≡ p → Voted now r p p' code
  given :
      (w : Wal) → code ≡ succeeded → MayVote r p → p' ≡ voted_for now r p w → Voted now r p p' code

answer-Voted :
    (c : ErrorCode) (now : ℕ) (r : VoteRequest) (p p' : RaftPart) (code : ErrorCode)
    → (c ≡ succeeded → MayVote r p)
    → answer_vote c now r p ≡ some (p', code)
    → Voted now r p p' code
answer-Voted succeeded now r p p' code may e = elim (Option-cases (vote_wal now p)) [
  | inl gone ↦ cc gone
  | inr (w, there) ↦ given w (ground arith) (may refl) (ground arith)
]
answer-Voted c now r p p' code may e = refused (ground arith) (ground arith)

process-Voted :
    (now : ℕ) (r : VoteRequest) (p p' : RaftPart) (code : ErrorCode)
    → process_ask_for_vote now r p ≡ some (p', code)
    → Voted now r p p' code
unfolding process_ask_for_vote
process-Voted now r p p' code e =
    answer-Voted (refuse_vote r p) now r p p' code (refuse_vote_iff r p).0 e

-- Of two granted requests the later one has a later term, or the same term and candidate.
abbrev pub Agrees : VoteRequest → VoteRequest → Type 0
Agrees r s = (r.term < s.term) ⊎ ((r.term ≡ s.term) × (r.candidate ≡ s.candidate))

-- Each element agrees with all that follow it.
abbrev pub AllAgree : List VoteRequest → Type 0
AllAgree [] = Unit {0}
AllAgree (r ∷ rs) = All (Agrees r) rs × AllAgree rs

-- A request that agrees with what the voter remembers.
abbrev After : RaftPart → VoteRequest → Type 0
After p s = (p.proposed_term < s.term) ⊎ ((p.proposed_term ≡ s.term) × (p.voted_addr ≡ s.candidate))

After-Agrees : (p : RaftPart) (r s : VoteRequest) → After p r → Agrees r s → After p s
After-Agrees p r s (inl a) (inl b) = inl (omega arith)
After-Agrees p r s (inl a) (inr (e, c)) = inl (omega arith)
After-Agrees p r s (inr (e, c)) (inl b) = inl (omega arith)
After-Agrees p r s (inr (e, c)) (inr (e', c')) = inr (e ∙ e', c ∙ c')

All-After :
    (p : RaftPart) (r : VoteRequest) (gs : List VoteRequest)
    → After p r
    → All (Agrees r) gs
    → All (After p) gs
All-After p r [] a h = tt
All-After p r (s ∷ gs) a (h, hs) = (After-Agrees p r s a h, All-After p r gs a hs)

-- A voter that remembers a vote is free only for what agrees with it.
IsFree-After : (r : VoteRequest) (p : RaftPart) → p.voted_addr ≢ no_addr → IsFree r p → After p r
IsFree-After r p some_vote (inl gone) = absurd (some_vote gone)
IsFree-After r p some_vote (inr (inl later)) = inl later
IsFree-After r p some_vote (inr (inr (same, cand))) = inr (same, cand)

-- Candidates have addresses.
abbrev pub HasCandidates : List (ℕ × VoteRequest) → Type 0
HasCandidates = All (λ (x : ℕ × VoteRequest). x.1.candidate ≢ no_addr)

IsAgreed : List (ℕ × VoteRequest) → RaftPart → Type 0
IsAgreed rs p =
    (q : RaftPart) (gs : List VoteRequest)
    → run_votes rs p ≡ some (q, gs)
    → AllAgree gs × (p.voted_addr ≢ no_addr → All (After p) gs)

-- One request in front of a row that is known.
step-IsAgreed :
    (now : ℕ) (r : VoteRequest) (rs : List (ℕ × VoteRequest)) (p p' : RaftPart) (code : ErrorCode)
    → Voted now r p p' code
    → r.candidate ≢ no_addr
    → IsAgreed rs p'
    → (gs : List VoteRequest) (q : RaftPart) → run_votes rs p' ≡ some (q, gs)
    → AllAgree (granted code r gs) × (p.voted_addr ≢ no_addr → All (After p) (granted code r gs))
unfolding IsAgreed
step-IsAgreed now r rs p p' code (refused no_vote same) real rest gs q e =
    let (agree, after) = rest q gs e in
    rw no_vote (
      agree,
      λ v.
          subst (λ x. All (After x) gs) same
            (after (λ g. v (ap (λ (x : RaftPart). x.voted_addr) (sym same) ∙ g))),
    )
step-IsAgreed now r rs p p' code (given w ok may new) real rest gs q e =
    let (agree, after) = rest q gs e in
    let later : All (Agrees r) gs =
      subst (λ x. All (After x) gs) new
        (after (λ g. real (ap (λ (x : RaftPart). x.voted_addr) (sym new) ∙ g))) in
    rw ok (
      (later, agree),
      λ v. let first = IsFree-After r p v may.free in (first, All-After p r gs first later),
    )

-- The second half of a pair that is known.
snd_of_some :
    {A B : Type 0} {a a' : A} {b b' : B}
    → ◌≡◌ {A = Option (A × B)} (some (a, b)) (some (a', b'))
    → b ≡ b'
snd_of_some e = cc

run_votes-IsAgreed : (rs : List (ℕ × VoteRequest)) (p : RaftPart) → HasCandidates rs → IsAgreed rs p
unfolding IsAgreed run_votes
run_votes-IsAgreed [] p h q gs e =
    subst (λ l. AllAgree l × (p.voted_addr ≢ no_addr → All (After p) l)) (snd_of_some e)
      (tt, λ v. tt)
run_votes-IsAgreed ((now, r) ∷ rs) p (real, more) q gs e =
    let ((p', code), one, tail) = >>=-eq-some (process_ask_for_vote now r p) _ e in
    let ((q', gs'), rest, last) = >>=-eq-some (run_votes rs p') _ tail in
    let step =
      step-IsAgreed now r rs p p' code (process-Voted now r p p' code one) real
        (run_votes-IsAgreed rs p' more) gs' q' rest in
    subst (λ l. AllAgree l × (p.voted_addr ≢ no_addr → All (After p) l)) (snd_of_some last) step

-- In a row of vote requests of candidates with addresses, with nothing else between them, the
-- granted ones come in order of their terms, and those of one term all have one candidate.
pub run_votes-AllAgree :
    (rs : List (ℕ × VoteRequest)) (p q : RaftPart) (gs : List VoteRequest)
    → HasCandidates rs
    → run_votes rs p ≡ some (q, gs)
    → AllAgree gs
unfolding IsAgreed
run_votes-AllAgree rs p q gs h e = (run_votes-IsAgreed rs p h q gs e).0
