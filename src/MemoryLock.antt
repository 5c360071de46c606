-- ===== src/MemoryLock.antt =====
-- utils/MemoryLockCore.h and MemoryLockWrapper.h: locks on keys, held in a hash map whose values are
-- not used. The map is the list of its keys; folly's concurrent map makes each call one step, and
-- here one caller is followed. Keys are of any type whose equality is tested.
use nebula_storage.Prelude.{
  ℕ, ◌+◌, ◌<◌, ◌≡◌, ◌≢◌, ◌↔◌, refl, sym, ap, ◌∙◌, subst, Bool, true, false, not, ◌&&◌, ◌||◌, List,
  [], ◌∷◌, ◌++◌, Option, none, some, arith, length, if◌then◌else◌, Bool-cases, inl, inr, ◌⊎◌,
}
pub mod Batch
mod Tests

-- The equality of the keys, as the hash map tests it.
pub record Eq {ℓ} (A : Type ℓ) : Type ℓ where
  pub beq : A → A → Bool
  pub beq_iff : (a b : A) → (beq a b ≡ true) ↔ (a ≡ b)

module _ {K : Type 0} ⦃e : Eq K⦄ where
  unfoldable pub holds : K → List K → Bool
  holds k [] = false
  holds k (x ∷ xs) = e.beq x k || holds k xs

  -- `hashMap_.erase(key)`.
  unfoldable pub unlock : K → List K → List K
  unlock k [] = []
  unlock k (x ∷ xs) = if e.beq x k then unlock k xs else x ∷ unlock k xs

  -- `hashMap_.insert(...)`, with whether it was new.
  unfoldable pub try_lock : K → List K → Bool × List K
  unfolding holds
  try_lock k held = if holds k held then (false, held) else (true, k ∷ held)

  unfoldable pub unlock_batch : List K → List K → List K
  unfolding unlock
  unlock_batch [] held = held
  unlock_batch (k ∷ ks) held = unlock_batch ks (unlock k held)

  -- The loop of lockBatch, with the keys from `begin` to `curr`; the key in conflict, if any, and the
  -- locks that are held afterwards.
  unfoldable pub lock_from : List K → List K → List K → Option K × List K
  unfolding try_lock unlock_batch
  lock_from done [] held = (none, held)
  lock_from done (k ∷ ks) held =
      let rest = lock_from (done ++ k ∷ []) ks (k ∷ held) in
      if holds k held then (some k, unlock_batch done held) else rest

  unfoldable pub lock_batch : List K → List K → Option K × List K
  unfolding lock_from
  lock_batch ks held = lock_from [] ks held

-- MemoryLockGuard of a list of keys. `unique` is std::sort with std::unique of the standard library: the
-- keys before the iterator that std::unique returns, and what it leaves behind them.
module _ {K : Type 0} ⦃e : Eq K⦄ (unique : List K → List K × List K) where
  -- The keys that the constructor locks, and the others that `keys_` ends with.
  unfoldable pub guard_keys : Bool → List K → List K × List K
  guard_keys dedup ks = if dedup then unique ks else (ks, [])

  -- The destructor unlocks all of `keys_`, if the guard is locked.
  abbrev pub guard_end : List K → Option K × List K → List K
  guard_end ks (none, locked) = unlock_batch ks locked
  guard_end ks (some c, locked) = locked

  -- The locks from the constructor to behind the destructor.
  unfoldable pub guarded : Bool → List K → List K → List K
  unfolding guard_keys lock_batch
  guarded dedup ks held =
      let (front, rest) = guard_keys dedup ks in guard_end (front ++ rest) (lock_batch front held)

abbrev pub is_locked : {K : Type 0} → Option K × List K → Bool
is_locked (none, locked) = true
is_locked (some c, locked) = false
