-- ===== src/HappiLock/Exclusion.antt =====
-- Mutual exclusion of the lock where it is not taken again by its owner.
use filscan_backend.Prelude.{
  ℕ, zero, suc, ◌<◌, ◌≡◌, refl, sym, ◌∙◌, ap, subst, true, false, ◌==◌, nat_eq, if◌then◌else◌,
  if_true, if_false, ◌⊎◌, inl, inr, Bool-cases, ==_iff, arith,
}
use filscan_backend.HappiLock.{
  Stage, running, waiting, acquired, Sexylock, new_happi_lock, set_stage, lock_enter, lock_mu,
  lock_own, unlock, Step, enter, acquire, own, leave, Unnested, start, more,
}

-- The goroutine has no part of the lock.
abbrev pub IsIdle : Stage → Type 0
IsIdle (running zero) = Unit {0}
IsIdle (running (suc n)) = ⊥
IsIdle (waiting n) = Unit {0}
IsIdle (acquired n) = ⊥

pub set_stage-here : (stage : ℕ → Stage) (me : ℕ) (s : Stage) → set_stage stage me s me ≡ s
set_stage-here stage me s = if_true _ _ _ ((==_iff me me).1 refl)

pub set_stage-there :
    (stage : ℕ → Stage) (me id : ℕ) (s : Stage)
    → (id == me) ≡ false
    → set_stage stage me s id ≡ stage id
set_stage-there stage me id s e = if_false _ _ _ e

abbrev Others : ℕ → (ℕ → Stage) → Type 0
Others h stage = (id : ℕ) → (id == h) ≡ false → IsIdle (stage id)

-- Everyone is idle and the mutex is free, or one goroutine has it.
abbrev IsFree : Sexylock → Type 0
IsFree rl = (rl.held ≡ false) × (rl.owner ≡ 0) × ((id : ℕ) → IsIdle (rl.stage id))

abbrev HasIt : ℕ → Sexylock → Type 0
HasIt h rl =
    (rl.held ≡ true)
    × (0 < h)
    × Others h rl.stage
    × (((rl.stage h ≡ acquired 0) × (rl.owner ≡ 0)) ⊎ ((rl.stage h ≡ running 1) × (rl.owner ≡ h)))

abbrev Guarded : Sexylock → Type 0
Guarded rl = IsFree rl ⊎ ((h : ℕ) × HasIt h rl)

-- An idle goroutine stays idle, or the goroutine that moves is.
moved-IsIdle :
    (stage : ℕ → Stage) (me id : ℕ) (s : Stage)
    → IsIdle s
    → ((id == me) ≡ false → IsIdle (stage id))
    → IsIdle (set_stage stage me s id)
moved-IsIdle stage me id s i f = elim (Bool-cases (id == me)) [
  | inl e ↦ subst IsIdle (sym (if_true (id == me) s (stage id) e)) i
  | inr e ↦ subst IsIdle (sym (set_stage-there stage me id s e)) (f e)
]

Others-after :
    (stage : ℕ → Stage) (me h : ℕ) (s : Stage)
    → Others h stage
    → IsIdle s
    → Others h (set_stage stage me s)
Others-after stage me h s o i id e = moved-IsIdle stage me id s i (λ f. o id e)

not-IsIdle : (s t : Stage) → s ≡ t → IsIdle s → IsIdle t
not-IsIdle s t e i = subst IsIdle e i

clash : {n : ℕ} → running (suc n) ≡ acquired 0 → ⊥
clash e = cc

holder_not-IsIdle : (h : ℕ) (rl : Sexylock) → HasIt h rl → ¬ IsIdle (rl.stage h)
holder_not-IsIdle h rl (held, above, others, inl (stage, owner)) i = not-IsIdle _ _ stage i
holder_not-IsIdle h rl (held, above, others, inr (stage, owner)) i = not-IsIdle _ _ stage i

-- A goroutine that is not idle is the one that has the lock.
is_holder : (h me : ℕ) (rl : Sexylock) → HasIt h rl → ¬ IsIdle (rl.stage me) → me ≡ h
is_holder h me rl (held, above, others, _) n = elim (Bool-cases (me == h)) [
  | inl e ↦ (==_iff me h).0 e
  | inr e ↦ absurd (n (others me e))
]

module _ (me : ℕ) (above : 0 < me) (rl : Sexylock) where
  abbrev entered : Stage
  entered = if rl.owner == me then running 1 else waiting 0

  waits : (rl.owner == me) ≡ false → IsIdle entered
  waits other = subst IsIdle (sym (if_false (rl.owner == me) (running 1) (waiting 0) other)) tt

  not_holder : rl.stage me ≡ running 0 → (h : ℕ) → HasIt h rl → (me == h) ≡ false
  not_holder at h has = elim (Bool-cases (me == h)) [
    | inl e ↦ absurd (
        holder_not-IsIdle h rl has (
          subst (λ k. IsIdle (rl.stage k)) ((==_iff me h).0 e)
            (not-IsIdle (running 0) (rl.stage me) (sym at) tt)))
    | inr e ↦ e
  ]

  not_owner :
      (h : ℕ)
      → ((rl.stage h ≡ acquired 0) × (rl.owner ≡ 0)) ⊎ ((rl.stage h ≡ running 1) × (rl.owner ≡ h))
      → (me == h) ≡ false
      → (rl.owner == me) ≡ false
  not_owner h (inl (stage, owner)) other = ground arith
  not_owner h (inr (stage, owner)) other = ground arith

  enter-Guarded : rl.stage me ≡ running 0 → Guarded rl → Guarded (lock_enter me 0 rl)
  unfolding lock_enter
  enter-Guarded at (inl (held, owner, idle)) =
      inl (
        held,
        owner,
        λ id. moved-IsIdle rl.stage me id entered (waits (ground arith)) (λ e. idle id),
      )
  enter-Guarded at (inr (h, has)) =
      let other = not_holder at h has in
      let (held, above_h, others, at_h) = has in
      let away = set_stage-there rl.stage me h entered (ground (arith, other)) in
      inr (
        h,
        (
          held,
          above_h,
          Others-after rl.stage me h entered others (waits (not_owner h at_h other)),
          elim at_h [
            | inl (stage, owner) ↦ inl (away ∙ stage, owner)
            | inr (stage, owner) ↦ inr (away ∙ stage, owner)
          ],
        ),
      )

  acquire-Guarded :
      rl.stage me ≡ waiting 0 → rl.held ≡ false → Guarded rl → Guarded (lock_mu me 0 rl)
  unfolding lock_mu
  acquire-Guarded at free (inl (held, owner, idle)) = inr (
    me,
    (
      refl,
      above,
      (λ id e. subst IsIdle (sym (set_stage-there rl.stage me id (acquired 0) e)) (idle id)),
      inl (set_stage-here rl.stage me (acquired 0), owner),
    ),
  )
  acquire-Guarded at free (inr (h, has)) = ground (arith, has.0)

  own-Guarded : rl.stage me ≡ acquired 0 → Guarded rl → Guarded (lock_own me 0 rl)
  unfolding lock_own
  own-Guarded at (inl (held, owner, idle)) = absurd (not-IsIdle _ _ at (idle me))
  own-Guarded at (inr (h, has)) =
      let same = is_holder h me rl has (not-IsIdle _ _ at) in
      inr (
        me,
        (
          has.0,
          above,
          (λ id e.
              subst IsIdle (sym (set_stage-there rl.stage me id (running 1) e))
                (has.2 id (subst (λ k. (id == k) ≡ false) same e))),
          inr (set_stage-here rl.stage me (running 1), refl),
        ),
      )

  leave-Guarded : rl.stage me ≡ running 1 → Guarded rl → Guarded (unlock me 0 rl)
  unfolding unlock
  leave-Guarded at (inl (held, owner, idle)) = absurd (not-IsIdle _ _ at (idle me))
  leave-Guarded at (inr (h, has)) =
      let same = is_holder h me rl has (not-IsIdle _ _ at) in
      subst Guarded (sym (if_false (rl.owner == 0) _ _ (owned h has same))) (
        inl (
          refl,
          refl,
          λ id.
              moved-IsIdle rl.stage me id (running 0) tt
                (λ e. has.2 id (subst (λ k. (id == k) ≡ false) same e)),
        ))
    where
      owned : (h : ℕ) → HasIt h rl → me ≡ h → (rl.owner == 0) ≡ false
      owned h (held, above_h, others, inl (stage, owner)) same =
          absurd (clash (sym at ∙ ap rl.stage same ∙ stage))
      owned h (held, above_h, others, inr (stage, owner)) same = ground arith

Step-Guarded :
    {me n : ℕ} {rl rl' : Sexylock} → 0 < me → n ≡ 0 → Guarded rl → Step me n rl rl' → Guarded rl'
Step-Guarded {me} {n} above e g (enter rl at) =
    subst (λ k. Guarded (lock_enter me k rl)) (sym e)
      (enter-Guarded me above rl (at ∙ ap running e) g)
Step-Guarded {me} {n} above e g (acquire rl at free) =
    subst (λ k. Guarded (lock_mu me k rl)) (sym e)
      (acquire-Guarded me above rl (at ∙ ap waiting e) free g)
Step-Guarded {me} {n} above e g (own rl at) =
    subst (λ k. Guarded (lock_own me k rl)) (sym e) (own-Guarded me above rl (at ∙ ap acquired e) g)
Step-Guarded {me} {n} above e g (leave rl at) =
    subst (λ k. Guarded (unlock me k rl)) (sym e)
      (leave-Guarded me above rl (at ∙ ap (λ k. running (suc k)) e) g)

Unnested-Guarded : (rl : Sexylock) → Unnested rl → Guarded rl
unfolding new_happi_lock
Unnested-Guarded _ start = inl (refl, refl, λ id. tt)
Unnested-Guarded _ (more {rl} {rl'} me above run step) =
    Step-Guarded above refl (Unnested-Guarded rl run) step

-- In a run in which no goroutine takes the lock again while it has it, however the goroutines are
-- interleaved, no two of them are between `Lock` and `Unlock` at once; and the one that is, is the owner.
pub Unnested-exclusive :
    (rl : Sexylock) (a b n m : ℕ)
    → Unnested rl
    → rl.stage a ≡ running (suc n)
    → rl.stage b ≡ running (suc m)
    → (a ≡ b) × (rl.owner ≡ a)
Unnested-exclusive rl a b n m run at_a at_b = elim (Unnested-Guarded rl run) [
  | inl (held, owner, idle) ↦ absurd (not-IsIdle _ _ at_a (idle a))
  | inr (h, has) ↦
      let a_h = is_holder h a rl has (not-IsIdle _ _ at_a) in
      let b_h = is_holder h b rl has (not-IsIdle _ _ at_b) in
      (a_h ∙ sym b_h, owner_is h has.3 (sym (ap rl.stage a_h) ∙ at_a) ∙ sym a_h)
]
  where
    owner_is :
        (h : ℕ)
        → ((rl.stage h ≡ acquired 0) × (rl.owner ≡ 0)) ⊎ ((rl.stage h ≡ running 1) × (rl.owner ≡ h))
        → rl.stage h ≡ running (suc n)
        → rl.owner ≡ h
    owner_is h (inl (stage, owner)) at = absurd (clash (sym at ∙ stage))
    owner_is h (inr (stage, owner)) at = owner
