-- ===== src/HappiLock/Nested.antt =====
-- The lock taken again by its owner: the inner `Unlock` releases it.
use filscan_backend.Prelude.{
  ℕ, suc, ◌<◌, ◌≡◌, ◌≢◌, refl, ◌∙◌, false, ◌==◌, nat_eq, if_false, arith, subst,
}
use filscan_backend.HappiLock.{
  running, waiting, acquired, Sexylock, set_stage, lock_mu, lock_own, unlock, Step, acquire, own,
  leave,
}
use filscan_backend.HappiLock.Exclusion.{set_stage-here, set_stage-there}

unlock_frees :
    (rl : Sexylock) (me n : ℕ)
    → (rl.owner == 0) ≡ false
    → unlock me n rl ≡ record { held = false; owner = 0; stage = set_stage rl.stage me (running n) }
unfolding unlock
unlock_frees rl me n owned = if_false _ _ _ owned

locked_stage : (me n : ℕ) (rl : Sexylock) → (lock_mu me n rl).stage me ≡ acquired n
unfolding lock_mu
locked_stage me n rl = set_stage-here rl.stage me (acquired n)

locked_others :
    (me n : ℕ) (rl : Sexylock) (id : ℕ)
    → (id == me) ≡ false
    → (lock_mu me n rl).stage id ≡ rl.stage id
unfolding lock_mu
locked_others me n rl id e = set_stage-there rl.stage me id (acquired n) e

owned_stage : (me n : ℕ) (rl : Sexylock) → (lock_own me n rl).stage me ≡ running (suc n)
unfolding lock_own
owned_stage me n rl = set_stage-here rl.stage me (running (suc n))

owned_others :
    (me n : ℕ) (rl : Sexylock) (id : ℕ)
    → (id == me) ≡ false
    → (lock_own me n rl).stage id ≡ rl.stage id
unfolding lock_own
owned_others me n rl id e = set_stage-there rl.stage me id (running (suc n)) e

-- Where the owner has taken the lock twice or more and another goroutine waits for it, three steps are
-- possible after which both are between `Lock` and `Unlock`: one `Unlock` of the owner, which leaves it
-- in its outer sections, and the rest of the other's `Lock`.
pub unlock-nested :
    (rl : Sexylock) (me other n m : ℕ)
    → 0 < me
    → me ≢ other
    → rl.owner ≡ me
    → rl.stage me ≡ running (suc (suc n))
    → rl.stage other ≡ waiting m
    → (released locked after : Sexylock) × Step me (suc n) rl released
      × Step other m released locked
      × Step other m locked after
      × (after.stage me ≡ running (suc n))
      × (after.stage other ≡ running (suc m))
unlock-nested rl me other n m above apart owner at_me at_other = (
  free,
  lock_mu other m free,
  lock_own other m (lock_mu other m free),
  subst (Step me (suc n) rl) (unlock_frees rl me (suc n) (ground arith)) (leave rl at_me),
  acquire free (set_stage-there rl.stage me other (running (suc n)) (ground arith) ∙ at_other) refl,
  own (lock_mu other m free) (locked_stage other m free),
  kept,
  owned_stage other m (lock_mu other m free),
)
  where
    free : Sexylock
    free = record { held = false; owner = 0; stage = set_stage rl.stage me (running (suc n)) }

    kept : (lock_own other m (lock_mu other m free)).stage me ≡ running (suc n)
    kept =
        owned_others other m (lock_mu other m free) me (ground arith)
        ∙ locked_others other m free me (ground arith)
        ∙ set_stage-here rl.stage me (running (suc n))
