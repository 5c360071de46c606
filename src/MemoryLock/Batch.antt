-- ===== src/MemoryLock/Batch.antt =====
-- lockBatch of utils/MemoryLockCore.h takes all of its keys or none.
use nebula_storage.Prelude.{
  ◌≡◌, refl, true, false, not, ◌&&◌, ◌||◌, List, [], ◌∷◌, ◌++◌, Option, none, some, arith,
  Bool-cases, inl, inr, ◌∙◌, Bool,
}
use nebula_storage.MemoryLock.{
  Eq, holds, unlock, unlock_batch, lock_from, lock_batch, guard_keys, guarded, guard_end, is_locked,
}

module _ {K : Type 0} ⦃e : Eq K⦄ where
  -- Each key is held after the unlocking of one exactly if it was and is another.
  holds-unlock :
      (a k : K) (held : List K) → holds a (unlock k held) ≡ (holds a held && not (e.beq k a))
  unfolding holds unlock
  holds-unlock a k [] = refl
  holds-unlock a k (x ∷ xs) =
      ground (arith, holds-unlock a k xs, e.beq_iff x k, e.beq_iff x a, e.beq_iff k a)

  holds-unlock_batch :
      (a : K) (ks held : List K)
      → holds a (unlock_batch ks held) ≡ (holds a held && not (holds a ks))
  unfolding holds unlock_batch
  holds-unlock_batch a [] held = ground arith
  holds-unlock_batch a (k ∷ ks) held =
      ground (arith, holds-unlock_batch a ks (unlock k held), holds-unlock a k held)

  holds-append : (a : K) (xs ys : List K) → holds a (xs ++ ys) ≡ (holds a xs || holds a ys)
  unfolding holds
  holds-append a [] ys = refl
  holds-append a (x ∷ xs) ys = ground (arith, holds-append a xs ys)

  -- No key of the list is held, and none stands in it twice.
  abbrev pub IsFree : List K → List K → Type 0
  IsFree [] held = Unit {0}
  IsFree (k ∷ ks) held = (holds k held ≡ false) × IsFree ks (k ∷ held)

  -- What a call leaves: all keys locked, or the locks of before.
  abbrev pub AllOrNone : List K → List K → Option K × List K → Type 0
  AllOrNone ks held (none, after) =
      IsFree ks held × ((a : K) → holds a after ≡ (holds a ks || holds a held))
  AllOrNone ks held (some c, after) =
      (IsFree ks held → ⊥) × (holds c ks ≡ true) × ((a : K) → holds a after ≡ holds a held)

  -- The same in the middle of the loop, where `done` is locked on top of `start`.
  abbrev Loop : List K → List K → List K → Option K × List K → Type 0
  Loop start ks held (none, after) =
      IsFree ks held × ((a : K) → holds a after ≡ (holds a ks || holds a held))
  Loop start ks held (some c, after) =
      (IsFree ks held → ⊥) × (holds c ks ≡ true) × ((a : K) → holds a after ≡ holds a start)

  record Locked (start done held : List K) : Type 0 where
    both : (a : K) → holds a held ≡ (holds a done || holds a start)
    apart : (a : K) → holds a done ≡ true → holds a start ≡ false

  Locked-step :
      (start done held : List K) (k : K)
      → Locked start done held
      → holds k held ≡ false
      → Locked start (done ++ k ∷ []) (k ∷ held)
  unfolding holds
  Locked-step start done held k l free = record {
    both = λ a. ground (arith, l.both a, holds-append a done (k ∷ []));
    apart = λ a h.
        ground (arith, l.both a, l.both k, l.apart a, holds-append a done (k ∷ []), e.beq_iff k a);
  }

  Loop-step :
      (start held ks : List K) (k : K) (r : Option K × List K)
      → holds k held ≡ false
      → Loop start ks (k ∷ held) r
      → Loop start (k ∷ ks) held r
  unfolding holds
  Loop-step start held ks k (none, after) free (rest, all) =
      ((free, rest), λ a. ground (arith, all a))
  Loop-step start held ks k (some c, after) free (stuck, found, back) =
      (λ f. stuck f.1, ground arith, back)

  lock_from-Loop :
      (start done ks held : List K)
      → Locked start done held
      → Loop start ks held (lock_from done ks held)
  unfolding lock_from holds
  lock_from-Loop start done [] held l = (tt, λ a. refl)
  lock_from-Loop start done (k ∷ ks) held l =
      let rest = λ (free : holds k held ≡ false).
        Loop-step start held ks k (lock_from (done ++ k ∷ []) ks (k ∷ held)) free (
          lock_from-Loop start (done ++ k ∷ []) ks (k ∷ held)
            (Locked-step start done held k l free)) in
      elim (Bool-cases (holds k held)) [
        | inl taken ↦ rw taken (
          λ f. ground arith,
          ground (arith, e.beq_iff k k),
          λ a. ground (arith, holds-unlock_batch a done held, l.both a, l.apart a),
        )
        | inr free ↦ rw free (rest free)
      ]

  AllOrNone-of_Loop :
      (ks held : List K) (r : Option K × List K) → Loop held ks held r → AllOrNone ks held r
  AllOrNone-of_Loop ks held (none, after) h = h
  AllOrNone-of_Loop ks held (some c, after) h = h

  IsFree-apart :
      (a : K) (ks held : List K) → IsFree ks held → holds a ks ≡ true → holds a held ≡ false
  unfolding holds
  IsFree-apart a [] held f h = absurd (ground arith)
  IsFree-apart a (k ∷ ks) held (free, rest) h =
      let more = IsFree-apart a ks (k ∷ held) rest in ground (arith, e.beq_iff k a)

  guard_end-holds :
      (unique : List K → List K × List K) (front rest held : List K) (r : Option K × List K)
      → AllOrNone front held r
      → (a : K)
      → holds a (guard_end unique (front ++ rest) r)
        ≡ (holds a held && not (is_locked r && holds a rest))
  guard_end-holds unique front rest held (none, after) (free, all) a =
      let apart = IsFree-apart a front held free in
      ground (arith, holds-unlock_batch a (front ++ rest) after, holds-append a front rest, all a)
  guard_end-holds unique front rest held (some c, after) (taken, asked, same) a =
      ground (arith, same a)

-- lockBatch locks all keys exactly if none of them is held or asked for twice; otherwise it names one
-- of the keys, and no other lock than before is held or lost.
pub lock_batch-AllOrNone :
    {K : Type 0} ⦃e : Eq K⦄ (ks held : List K) → AllOrNone ks held (lock_batch ks held)
unfolding lock_batch holds
lock_batch-AllOrNone ks held = AllOrNone-of_Loop ks held (lock_from [] ks held) (
    lock_from-Loop held [] ks held
      (record { both = λ a. refl; apart = λ a h. absurd (ground arith) }))

-- A guard that goes out of scope leaves the locks as they were, but for the keys that std::unique has
-- left behind its result: a guard that drops duplicates and has got its locks takes these away, also
-- where others hold them.
pub guarded-holds :
    {K : Type 0} ⦃e : Eq K⦄ (unique : List K → List K × List K) (dedup : Bool) (ks held : List K)
    (a : K)
    → let keys = guard_keys unique dedup ks in
      holds a (guarded unique dedup ks held)
      ≡ (holds a held && not (is_locked (lock_batch keys.0 held) && holds a keys.1))
unfolding guarded
guarded-holds unique dedup ks held a =
    let keys = guard_keys unique dedup ks in
    guard_end-holds unique keys.0 keys.1 held (lock_batch keys.0 held)
      (lock_batch-AllOrNone keys.0 held) a

-- A guard that does not drop duplicates leaves the locks as they were, got it its keys or not.
guarded-restores :
    {K : Type 0} ⦃e : Eq K⦄ (unique : List K → List K × List K) (ks held : List K) (a : K)
    → holds a (guarded unique false ks held) ≡ holds a held
unfolding guard_keys holds
guarded-restores unique ks held a = guarded-holds unique false ks held a ∙ ground arith
