-- ===== src/MemoryLock/Tests.antt =====
-- Locks on numbers, and what the theorems say of them.
use nebula_storage.Prelude.{ℕ, ◌≡◌, true, false, length, replicate, List, [], ◌∷◌, ◌==◌, ==_iff}
use nebula_storage.MemoryLock.{Eq, holds, lock_batch, guard_keys, guarded}
use nebula_storage.MemoryLock.Batch.{AllOrNone, lock_batch-AllOrNone, guarded-holds}

instance abbrev eq_of_ℕ : Eq ℕ
eq_of_ℕ = record { beq = λ a b. a == b; beq_iff = ==_iff }

abbrev three_keys : List ℕ
three_keys = 1 ∷ 2 ∷ 3 ∷ []

lock_batch-AllOrNone_example : AllOrNone three_keys (2 ∷ []) (lock_batch three_keys (2 ∷ []))
lock_batch-AllOrNone_example = lock_batch-AllOrNone three_keys (2 ∷ [])

-- Of a list of ones, std::unique keeps the first; here 0 stands in the places behind it.
abbrev first_of_ones : List ℕ → List ℕ × List ℕ
first_of_ones [] = ([], [])
first_of_ones (k ∷ ks) = (k ∷ [], replicate (length ks) 0)

-- Somebody else's lock on 0 is lost.
guarded-holds_example :
    holds {K = ℕ} 0 (guarded {K = ℕ} first_of_ones true (1 ∷ 1 ∷ []) (0 ∷ [])) ≡ false
unfolding guard_keys holds lock_batch
guarded-holds_example = guarded-holds first_of_ones true (1 ∷ 1 ∷ []) (0 ∷ []) 0
