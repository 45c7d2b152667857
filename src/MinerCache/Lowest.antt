-- ===== src/MinerCache/Lowest.antt =====
-- `refresh_min_max` of fs_miner_cache.go: the miner with the lowest power in the newest slot.
use filscan_backend.Prelude.{
  ℕ, ◌≤◌, ◌≡◌, ◌⊎◌, refl, sym, ap, ◌∙◌, Bool, true, false, is_some, String, Option, none, some,
  List, [], ◌∷◌, subst, All, ltb, if◌then◌else◌, ok, ◌>>=◌, arith, inl, inr, >>=-ok,
}
use filscan_backend.MinerCache.{
  MinerState, Row, Miners, FsMinerCache, lookup, read, better, min_max_loop, refresh_min_max,
}
use filscan_backend.MinerCache.History.{Belongs, front_of, IsRow}
use filscan_backend.MinerCache.Table.{IsDistinct, found_by_key}

-- Go's `range` over a map visits the entries and nothing else.
pub record VisitsAll (range : (A : Type 0) → List A → List A) : Type 1 where
  pub only : (A : Type 0) (P : A → Type 0) (l : List A) → All P l → All P (range A l)
  pub each : (A : Type 0) (P : A → Type 0) (l : List A) → All P (range A l) → All P l

abbrev pub AreRows : ℕ → Miners → Type 0
AreRows n m = All (λ e. IsRow n e.0 e.1) m

abbrev pub AtLeast : ℕ → Option MinerState → Type 0
AtLeast p none = Unit
AtLeast p (some s) = p ≤ s.power

-- The row of `min` has the lowest power in the newest slot.
pub record IsLowest (min : String) (m : Miners) : Type 0 where
  pub row : Row
  pub state : MinerState
  pub present : lookup min m ≡ some row
  pub newest : front_of row ≡ some state
  pub below : All (λ e. AtLeast state.power (front_of e.1)) m

-- `min` is the key of a row with a state in the newest slot, which need not be the lowest.
pub record HasMin (min : String) (m : Miners) : Type 0 where
  pub row : Row
  pub state : MinerState
  pub present : lookup min m ≡ some row
  pub newest : front_of row ≡ some state

pub IsLowest-HasMin : {min : String} {m : Miners} → IsLowest min m → HasMin min m
IsLowest-HasMin l = record { row = l.row; state = l.state; present = l.present; newest = l.newest }

-- What `better` keeps of two states.
abbrev pick : (ℕ → ℕ → Bool) → MinerState → MinerState → MinerState
pick wins best s = if wins s.power best.power then s else best

better-pick :
    (wins : ℕ → ℕ → Bool) (best s : MinerState)
    → better wins (some best) (some s) ≡ ok (some (pick wins best s))
better-pick wins best s = go (wins s.power best.power)
  where
    go : (b : Bool) → ok (if b then some s else some best) ≡ ok (some (if b then s else best))
    go true = refl
    go false = refl

pick-cases :
    (best s : MinerState)
    → ((pick ltb best s ≡ best) ⊎ (pick ltb best s ≡ s))
      × ((pick ltb best s).power ≤ best.power)
      × ((pick ltb best s).power ≤ s.power)
pick-cases best s = go (ltb s.power best.power) refl
  where
    go :
        (b : Bool)
        → ltb s.power best.power ≡ b
        → (((if b then s else best) ≡ best) ⊎ ((if b then s else best) ≡ s))
          × ((if b then s else best).power ≤ best.power)
          × ((if b then s else best).power ≤ s.power)
    go true less = (inr refl, ground arith, omega arith)
    go false more = (inl refl, omega arith, ground arith)

pub read-front :
    (row : Row)
    → is_some (front_of row) ≡ true
    → (s : MinerState) × (front_of row ≡ some s) × (read row 0 ≡ ok (some s))
read-front [] h = cc
read-front (none ∷ row) h = cc
read-front (some s ∷ row) h = (s, refl, refl)

AtLeast-mono : (p q : ℕ) (x : Option MinerState) → p ≤ q → AtLeast q x → AtLeast p x
AtLeast-mono p q none h a = tt
AtLeast-mono p q (some s) h a = omega arith

AtLeast-some :
    (p : ℕ) (x : Option MinerState) (s : MinerState) → x ≡ some s → p ≤ s.power → AtLeast p x
AtLeast-some p x s e h = subst (AtLeast p) (sym e) h

-- From two states on, the loop does not panic; its lowest state is the first one or that of an entry,
-- and no entry's is lower.
record IsBest (P : String × Row → Type 0) (lo : MinerState) (hi : MinerState) (m : Miners)
    : Type 0 where
  best : MinerState
  top : MinerState
  runs : min_max_loop (some lo) (some hi) m ≡ ok (some best, some top)
  from : (best ≡ lo) ⊎ ((e : String × Row) × P e × (front_of e.1 ≡ some best))
  under : best.power ≤ lo.power
  least : All (λ e. AtLeast best.power (front_of e.1)) m

loop_from :
    (P : String × Row → Type 0) (n : ℕ) (m : Miners) (lo hi : MinerState)
    → AreRows n m
    → All P m
    → IsBest P lo hi m
unfolding min_max_loop
loop_from P n [] lo hi v h = record {
  best = lo;
  top = hi;
  runs = refl;
  from = inl refl;
  under = omega arith;
  least = tt;
}
loop_from P n ((k, row) ∷ m) lo hi v h =
    step (read-front row v.0.front) (λ lo' hi'. loop_from P n m lo' hi' v.1 h.1)
  where
    step :
        (s : MinerState) × (front_of row ≡ some s) × (read row 0 ≡ ok (some s))
        → ((lo' hi' : MinerState) → IsBest P lo' hi' m)
        → IsBest P lo hi ((k, row) ∷ m)
    step (s, e, r) rest =
        let low = pick ltb lo s in
        let high = pick (λ p best. ltb best p) hi s in
        let found = rest low high in
        record {
          best = found.best;
          top = found.top;
          runs = >>=-ok _ r (
              >>=-ok
                (λ lo'.
                  better (λ p best. ltb best p) (some hi) (some s)
                  >>= (λ hi'. min_max_loop lo' hi' m))
                (better-pick ltb lo s)
                (>>=-ok (λ hi'. min_max_loop (some low) hi' m)
                  (better-pick (λ p best. ltb best p) hi s) found.runs));
          from = elim found.from [
            | inl kept ↦ elim (pick-cases lo s).0 [
              | inl same ↦ inl (kept ∙ same)
              | inr now ↦ inr ((k, row), h.0, e ∙ ap some (sym (kept ∙ now)))
            ]
            | inr later ↦ inr later
          ];
          under = omega (arith, pick-cases lo s, found.under);
          least = (
            AtLeast-some found.best.power (front_of row) s e
                (omega (arith, pick-cases lo s, found.under)),
            found.least,
          );
        }

nonempty_loop :
    (P : String × Row → Type 0) (n : ℕ) (m : Miners)
    → AreRows n m
    → All P m
    → ((m ≡ []) × (min_max_loop none none m ≡ ok (none, none)))
      ⊎ ((best top : MinerState) × (min_max_loop none none m ≡ ok (some best, some top))
          × ((e : String × Row) × P e × (front_of e.1 ≡ some best))
          × All (λ e. AtLeast best.power (front_of e.1)) m)
unfolding min_max_loop
nonempty_loop P n [] v h = inl (refl, refl)
nonempty_loop P n ((k, row) ∷ m) v h = inr (first (read-front row v.0.front))
  where
    first :
        (s : MinerState) × (front_of row ≡ some s) × (read row 0 ≡ ok (some s))
        → (best top : MinerState) × (min_max_loop none none ((k, row) ∷ m)
            ≡ ok (some best, some top))
          × ((e : String × Row) × P e × (front_of e.1 ≡ some best))
          × All (λ e. AtLeast best.power (front_of e.1)) ((k, row) ∷ m)
    first (s, e, r) =
        let found = loop_from P n m s s v.1 h.1 in
        (
          found.best,
          found.top,
          >>=-ok _ r found.runs,
          elim found.from [
            | inl kept ↦ ((k, row), h.0, e ∙ ap some (sym kept))
            | inr later ↦ later
          ],
          (AtLeast-some found.best.power (front_of row) s e found.under, found.least),
        )

front-owned :
    (k : String) (row : Row) {s : MinerState}
    → All (Belongs k) row
    → front_of row ≡ some s
    → s.miner_addr ≡ k
front-owned k [] h e = cc
front-owned k (none ∷ row) h e = cc
front-owned k (some r ∷ row) {s} h e = subst (λ x. x.miner_addr ≡ k) (some-inj e) h.0
  where
    some-inj : some r ≡ some s → r ≡ s
    some-inj e = cc

no_entry : (m : Miners) → All (λ e. ⊥) m → m ≡ []
no_entry [] h = refl
no_entry (e ∷ m) h = absurd h.0

module _ (range : (A : Type 0) → List A → List A) (v : VisitsAll range) where
  -- `refresh_min_max` does not panic on rows, and changes `min` and `max` only; `min` is then the miner
  -- with the lowest power, if there is one.
  pub refresh_min_max-IsLowest :
      (this : FsMinerCache) (n : ℕ)
      → AreRows n this.miners
      → IsDistinct this.miners
      → (min' max' : String) × (refresh_min_max range this
          ≡ ok (record this { min = min'; max = max' }))
        × ((this.miners ≡ []) ⊎ IsLowest min' this.miners)
  unfolding refresh_min_max
  refresh_min_max-IsLowest this n rows d = go (
      nonempty_loop Good n (range (String × Row) this.miners)
        (v.only (String × Row) (λ e. IsRow n e.0 e.1) this.miners rows)
        (v.only (String × Row) Good this.miners
          (good this.miners rows (found_by_key this.miners d))))
    where
      Good : String × Row → Type 0
      Good e = IsRow n e.0 e.1 × (lookup e.0 this.miners ≡ some e.1)

      good :
          (l : Miners) → AreRows n l → All (λ e. lookup e.0 this.miners ≡ some e.1) l → All Good l
      good [] a b = tt
      good (e ∷ l) a b = ((a.0, b.0), good l a.1 b.1)

      go :
          ((range (String × Row) this.miners ≡ [])
              × (min_max_loop none none (range (String × Row) this.miners) ≡ ok (none, none)))
            ⊎ ((best top : MinerState) × (min_max_loop none none (range (String × Row) this.miners)
                  ≡ ok (some best, some top))
                × ((e : String × Row) × Good e × (front_of e.1 ≡ some best))
                × All (λ e. AtLeast best.power (front_of e.1)) (range (String × Row) this.miners))
          → (min' max' : String) × (refresh_min_max range this
              ≡ ok (record this { min = min'; max = max' }))
            × ((this.miners ≡ []) ⊎ IsLowest min' this.miners)
      go (inl (empty, runs)) = (
        this.min,
        this.max,
        >>=-ok _ runs refl,
        inl (
            no_entry this.miners
              (v.each (String × Row) (λ e. ⊥) this.miners (subst (All (λ e. ⊥)) (sym empty) tt))),
      )
      go (inr (best, top, runs, (e, good_e, front_e), least)) = (
        best.miner_addr,
        top.miner_addr,
        >>=-ok _ runs refl,
        inr (record {
          row = e.1;
          state = best;
          present =
              ap (λ k. lookup k this.miners) (front-owned e.0 e.1 (good_e.0).owned front_e)
              ∙ good_e.1;
          newest = front_e;
          below = v.each (String × Row) (λ e. AtLeast best.power (front_of e.1)) this.miners least;
        }),
      )
