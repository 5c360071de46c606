-- ===== src/Raft/Acks.antt =====
-- RaftPart.cpp, processAppendLogResponses: the hosts behind the responses that are counted.
use nebula_storage.Prelude.{
  ℕ, zero, suc, ◌+◌, ◌≤◌, ◌≡◌, refl, sym, subst, Bool, true, false, not, ◌&&◌, ◌||◌, List, [], ◌∷◌,
  arith, ◌==◌, if◌then◌else◌, Bool-cases, inl, inr,
}
use nebula_storage.Raft.{Host, ErrorCode}
use nebula_storage.Raft.Leader.{is_success, is_voter_at, count_succeeded}

-- Whether the host with an index has responded with success.
unfoldable pub has_acked : ℕ → List (ℕ × ErrorCode) → Bool
has_acked i [] = false
has_acked i ((j, code) ∷ rs) = (j == i && is_success code) || has_acked i rs

-- The number of the voters that have, of hosts whose indices start at `k`.
unfoldable pub acked_voters : ℕ → List Host → List (ℕ × ErrorCode) → ℕ
acked_voters k [] rs = 0
acked_voters k (h ∷ hs) rs =
    if not h.is_learner && has_acked k rs
    then suc (acked_voters (k + 1) hs rs)
    else acked_voters (k + 1) hs rs

unfoldable pub has_index : ℕ → List (ℕ × ErrorCode) → Bool
has_index i [] = false
has_index i ((j, code) ∷ rs) = j == i || has_index i rs

-- No host responds twice, as collectNSucceeded has it.
abbrev pub RespondOnce : List (ℕ × ErrorCode) → Type 0
RespondOnce [] = Unit
RespondOnce ((i, code) ∷ rs) = (has_index i rs ≡ false) × RespondOnce rs

has_index-has_acked :
    (i : ℕ) → (rs : List (ℕ × ErrorCode)) → has_index i rs ≡ false → has_acked i rs ≡ false
unfolding has_index has_acked
has_index-has_acked i [] e = refl
has_index-has_acked i ((j, code) ∷ rs) e = ground (arith, has_index-has_acked i rs)

acked_voters-more :
    (i k : ℕ)
    → (c : ErrorCode) → (hs : List Host) → (rs : List (ℕ × ErrorCode))
    → acked_voters k hs rs ≤ acked_voters k hs ((i, c) ∷ rs)
unfolding acked_voters has_acked
acked_voters-more i k c [] rs = omega arith
acked_voters-more i k c (h ∷ hs) rs = ground (arith, acked_voters-more i (k + 1) c hs rs)

-- A first success of a voter counts.
acked_voters-new :
    (k j : ℕ)
    → (c : ErrorCode) → (hs : List Host) → (rs : List (ℕ × ErrorCode)) → is_success c ≡ true
    → is_voter_at hs j ≡ true
    → has_acked (k + j) rs ≡ false
    → acked_voters k hs rs + 1 ≤ acked_voters k hs ((k + j, c) ∷ rs)
unfolding acked_voters has_acked
acked_voters-new k j c [] rs s v n = absurd (cc)
acked_voters-new k zero c (h ∷ hs) rs s v n =
    let rest = acked_voters-more (k + 0) (k + 1) c hs rs in
    let none_yet : has_acked k rs ≡ false =
      subst (λ (t : ℕ). has_acked t rs ≡ false) (omega arith) n in
    ground arith
acked_voters-new k (suc j) c (h ∷ hs) rs s v n =
    let same : k + suc j ≡ (k + 1) + j = omega arith in
    let rest =
      acked_voters-new (k + 1) j c hs rs s v (subst (λ (t : ℕ). has_acked t rs ≡ false) same n) in
    let here =
      subst (λ (t : ℕ). acked_voters (k + 1) hs rs + 1 ≤ acked_voters (k + 1) hs ((t, c) ∷ rs))
        (sym same) rest in
    ground arith

both-left : (a b : Bool) → a && b ≡ true → a ≡ true
both-left true b e = refl
both-left false b e = e

both-right : (a b : Bool) → a && b ≡ true → b ≡ true
both-right true b e = e
both-right false b e = absurd (cc)

from_zero : (i : ℕ) → 0 + i ≡ i
from_zero i = omega arith

-- Where no host responds twice, each success that is counted is that of another voter.
pub count_succeeded-acked_voters :
    (hs : List Host)
    → (rs : List (ℕ × ErrorCode)) → RespondOnce rs
    → count_succeeded hs rs ≤ acked_voters 0 hs rs
unfolding count_succeeded acked_voters
count_succeeded-acked_voters hs [] d = omega arith
count_succeeded-acked_voters hs ((i, c) ∷ rs) (fresh, d) =
    let rest = count_succeeded-acked_voters hs rs d in
    elim (Bool-cases (is_voter_at hs i && is_success c)) [
      | inl counts ↦
          let v : is_voter_at hs i ≡ true = both-left (is_voter_at hs i) (is_success c) counts in
          let s : is_success c ≡ true = both-right (is_voter_at hs i) (is_success c) counts in
          let more = acked_voters-new 0 i c hs rs s v (
            subst (λ (t : ℕ). has_acked t rs ≡ false) (omega arith)
              (has_index-has_acked i rs fresh)) in
          let here =
            subst (λ (t : ℕ). acked_voters 0 hs rs + 1 ≤ acked_voters 0 hs ((t, c) ∷ rs))
              (from_zero i) more in
          rw counts (omega (arith, rest, here))
      | inr not_counted ↦ rw not_counted (omega (arith, rest, acked_voters-more i 0 c hs rs))
    ]
