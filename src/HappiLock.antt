-- ===== src/HappiLock.antt =====
-- utils/happi_lock.go: the lock that a goroutine may take again while it has it. What runs under the
-- inner mutex is one step; `Lock` is up to three steps, between which other goroutines run.
pub mod Exclusion
pub mod Nested
use filscan_backend.Prelude.{ℕ, zero, suc, ◌<◌, ◌≡◌, Bool, true, false, ◌==◌, nat_eq, if◌then◌else◌}

-- Where a goroutine is, and in how many sections between `Lock` and `Unlock`: it runs, it waits for the
-- mutex in `Lock`, or it has the mutex and has not yet written its name.
pub data Stage : Type 0 where
  running waiting acquired : ℕ → Stage

-- `held` is the mutex `mu`; goroutines have numbers above 0, and an owner of 0 is none.
pub record Sexylock : Type 0 where
  pub held : Bool
  pub owner : ℕ
  pub stage : ℕ → Stage

unfoldable pub new_happi_lock : Sexylock
new_happi_lock = record { held = false; owner = 0; stage = λ id. running 0 }

abbrev pub set_stage : (ℕ → Stage) → ℕ → Stage → ℕ → Stage
set_stage stage me s id = if id == me then s else stage id

-- `Lock`, up to the wait; `n` sections are open.
unfoldable pub lock_enter : ℕ → ℕ → Sexylock → Sexylock
lock_enter me n rl = record rl {
  stage = set_stage rl.stage me (if rl.owner == me then running (suc n) else waiting n);
}

-- `rl.mu.Lock()`, which waits while the mutex is held.
unfoldable pub lock_mu : ℕ → ℕ → Sexylock → Sexylock
lock_mu me n rl = record rl { held = true; stage = set_stage rl.stage me (acquired n) }

-- `rl.owner = me`, and the return.
unfoldable pub lock_own : ℕ → ℕ → Sexylock → Sexylock
lock_own me n rl = record rl { owner = me; stage = set_stage rl.stage me (running (suc n)) }

-- `Unlock`, out of the last of `suc n` sections; whoever the owner is.
unfoldable pub unlock : ℕ → ℕ → Sexylock → Sexylock
unlock me n rl =
    let left = set_stage rl.stage me (running n) in
    if rl.owner == 0
    then record rl { stage = left }
    else record rl { owner = 0; held = false; stage = left }

-- One step of the goroutine `me`, with `n` open sections.
pub data Step : ℕ → ℕ → Sexylock → Sexylock → Type 0 where
  enter : {me n : ℕ} (rl : Sexylock) → rl.stage me ≡ running n → Step me n rl (lock_enter me n rl)
  acquire :
      {me n : ℕ} (rl : Sexylock)
      → rl.stage me ≡ waiting n
      → rl.held ≡ false
      → Step me n rl (lock_mu me n rl)
  own : {me n : ℕ} (rl : Sexylock) → rl.stage me ≡ acquired n → Step me n rl (lock_own me n rl)
  leave : {me n : ℕ} (rl : Sexylock) → rl.stage me ≡ running (suc n) → Step me n rl (unlock me n rl)

-- Runs in which no goroutine takes the lock again while it has it.
pub data Unnested : Sexylock → Type 0 where
  start : Unnested new_happi_lock
  more : {rl rl' : Sexylock} (me : ℕ) → 0 < me → Unnested rl → Step me 0 rl rl' → Unnested rl'
