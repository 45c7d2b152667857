-- ===== src/Tests/LockRuns.antt =====
-- The theorems on the lock at work.
use filscan_backend.Prelude.{ℕ, ◌≡◌, refl, true, ◌==◌, nat_eq, if◌then◌else◌, arith}
use filscan_backend.HappiLock.{
  running, waiting, Sexylock, new_happi_lock, lock_enter, lock_mu, lock_own, Step, enter, acquire,
  own, Unnested, start, more,
}
use filscan_backend.HappiLock.Exclusion.{Unnested-exclusive}
use filscan_backend.HappiLock.Nested.{unlock-nested}

-- The goroutines 1 and 2 call `Lock`, and 1 gets it.
abbrev locked : Sexylock
locked = lock_own 1 0 (lock_mu 1 0 (lock_enter 2 0 (lock_enter 1 0 new_happi_lock)))

locked-Unnested : Unnested locked
unfolding new_happi_lock lock_enter lock_mu
locked-Unnested =
    more 1 (omega arith)
      (more 1 (omega arith)
        (more 2 (omega arith) (more 1 (omega arith) start (enter new_happi_lock refl))
          (enter (lock_enter 1 0 new_happi_lock) refl))
        (acquire (lock_enter 2 0 (lock_enter 1 0 new_happi_lock)) refl refl))
      (own (lock_mu 1 0 (lock_enter 2 0 (lock_enter 1 0 new_happi_lock))) refl)

locked-running : locked.stage 1 ≡ running 1
unfolding new_happi_lock lock_enter lock_mu lock_own
locked-running = refl

Unnested-exclusive_example : ◌≡◌ {A = ℕ} 1 1 × (locked.owner ≡ 1)
Unnested-exclusive_example =
    Unnested-exclusive locked 1 1 0 0 locked-Unnested locked-running locked-running

-- The goroutine 1 has the lock twice, and 2 waits.
abbrev twice : Sexylock
twice = record { held = true; owner = 1; stage = λ id. if id == 1 then running 2 else waiting 0 }

unlock-nested_example :
    (released taken after : Sexylock) × Step 1 1 twice released
    × Step 2 0 released taken
    × Step 2 0 taken after
    × (after.stage 1 ≡ running 1)
    × (after.stage 2 ≡ running 1)
unlock-nested_example = unlock-nested twice 1 2 0 0 (omega arith) (omega arith) refl refl refl
