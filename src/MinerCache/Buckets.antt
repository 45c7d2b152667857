-- ===== src/MinerCache/Buckets.antt =====
-- `time_to_index` of fs_miner_cache.go: the slots are the periods of the window, the newest first.
use filscan_backend.Prelude.{
  ℕ, zero, suc, ◌+◌, ◌-◌, ◌*◌, ◌/◌, ◌≤◌, ◌<◌, ◌≡◌, ◌⊎◌, refl, sym, ap, subst, Bool, true, false,
  ltb, leb, arith, Bool-cases, inl, inr, ltb→lt,
}
use filscan_backend.MinerCache.{FsMinerCache, time_to_index, next_refresh_time}

-- The last time of a slot's period.
abbrev pub period_end : FsMinerCache → ℕ → ℕ
period_end this i = this.start_time + (this.max_cached_size - 1 - i) * this.time_duration

ceil-bounds : (d p : ℕ) → 1 ≤ p → (d ≤ (d + (p - 1)) / p * p) × ((d + (p - 1)) / p * p < d + p)
ceil-bounds d p h = grind arith

lt_of_mul : (q n p : ℕ) → q * p < n * p + p → q ≤ n
lt_of_mul q n p h = grind arith

mul-pred : (n p : ℕ) → 1 ≤ n → n * p ≡ (n - 1) * p + p
mul-pred zero p h = ground arith
mul-pred (suc n) p h = grind arith

leb→le : (a b : ℕ) → leb a b ≡ true → a ≤ b
leb→le a b h = ground arith

-- Where the slot of a time lies: past the window, in the period of the slot, or before the window.
abbrev pub IsSlotOf : FsMinerCache → ℕ → ℕ × Bool → Type 0
IsSlotOf this time (i, late) =
    (i < this.max_cached_size)
    × (((late ≡ true) × (i ≡ 0) × (next_refresh_time this < time + this.time_duration))
        ⊎ ((late ≡ false)
            × (time ≤ period_end this i)
            × (period_end this i < time + this.time_duration))
        ⊎ ((late ≡ false) × (suc i ≡ this.max_cached_size) × (time ≤ this.start_time)))

-- With a positive size and period, `time_to_index` gives a slot of the cache. A time up to `start_time`
-- has the oldest one; a time that is behind the last period's end, a period before
-- `next_refresh_time`, has the newest one and asks for a shift; any other time has the slot in whose
-- period it lies, and asks for none.
pub time_to_index_lem :
    (this : FsMinerCache) (time : ℕ)
    → 1 ≤ this.max_cached_size
    → 1 ≤ this.time_duration
    → IsSlotOf this time (time_to_index this time)
unfolding time_to_index next_refresh_time
time_to_index_lem this time sized period = elim (Bool-cases (leb time this.start_time)) [
  | inl before ↦
      rw before (omega arith, inr (inr (refl, omega arith, leb→le time this.start_time before)))
  | inr after ↦
      elim (Bool-cases
        (ltb (this.start_time + (this.max_cached_size - 1) * this.time_duration) time)) [
          | inl late ↦ rw (after, late) (omega arith, inl (refl, refl, late_by late))
          | inr inside ↦ rw (after, inside) (in_period (ground arith) (ground arith))
        ]
]
  where
    n : ℕ
    n = this.max_cached_size - 1

    d : ℕ
    d = time - this.start_time

    p : ℕ
    p = this.time_duration

    q : ℕ
    q = (d + (p - 1)) / p

    next : next_refresh_time this ≡ this.start_time + (n * p + p)
    next = ap (◌+◌ this.start_time) (mul-pred this.max_cached_size p sized)

    late_by : ltb (this.start_time + n * p) time ≡ true → next_refresh_time this < time + p
    late_by late = omega (arith, next, ltb→lt _ _ late)

    in_period :
        this.start_time < time → time ≤ this.start_time + n * p → IsSlotOf this time (n - q, false)
    in_period after inside =
        let bounds = ceil-bounds d p period in
        let few : q ≤ n = lt_of_mul q n p (omega (arith, bounds)) in
        let same : n - (n - q) ≡ q = omega (arith, few) in
        (
          omega (arith, sized),
          inr (
              inl (
                refl,
                subst (λ k. time ≤ this.start_time + k * p) (sym same) (omega (arith, bounds)),
                subst (λ k. this.start_time + k * p < time + p) (sym same) (omega (arith, bounds)),
              )),
        )
