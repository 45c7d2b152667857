-- ===== src/MinerCache/Rows.antt =====
-- The loops of fs_miner_cache.go over the slots of a row: what they leave in it, without a panic.
use filscan_backend.Prelude.{
  ℕ, zero, suc, ◌≤◌, ◌<◌, ◌≡◌, refl, sym, ap, ◌∙◌, Bool, true, false, not, Option, none, some, [],
  ◌∷◌, subst, take, length, get_elem?, All, leb, string_eq, if◌then◌else◌, ok, arith, if_true,
  if_false, >>=-ok, Bool-cases, inl, inr, lt→ltb,
}
use filscan_backend.MinerCache.{
  MinerState, Row, slot, set, write, is_older, fill_newer, set_existing,
}

-- The newer of a slot and a state; of two of one time, the slot.
abbrev pub newer : Option MinerState → MinerState → Option MinerState
newer cur inv = if is_older cur inv then some inv else cur

-- The first `n` slots are brought up to a state.
abbrev pub raise : ℕ → MinerState → Row → Row
raise zero inv row = row
raise (suc n) inv [] = []
raise (suc n) inv (x ∷ row) = newer x inv ∷ raise n inv row

-- The first `n` slots hold the state.
abbrev pub stamp : ℕ → MinerState → Row → Row
stamp zero inv row = row
stamp (suc n) inv [] = []
stamp (suc n) inv (x ∷ row) = some inv ∷ stamp n inv row

-- A slot with a state has one that is not older in each newer slot.
abbrev pub covers : Option MinerState → Option MinerState → Bool
covers x none = true
covers none (some s) = false
covers (some r) (some s) = leb s.mine_time r.mine_time

abbrev pub IsNewestFirst : Row → Type 0
IsNewestFirst [] = Unit
IsNewestFirst (x ∷ row) = All (λ y. covers x y ≡ true) row × IsNewestFirst row

pub length-set : (row : Row) (i : ℕ) (v : Option MinerState) → length (set row i v) ≡ length row
unfolding set
length-set [] i v = refl
length-set (x ∷ row) zero v = refl
length-set (x ∷ row) (suc i) v = ap suc (length-set row i v)

pub read-in :
    (row : Row) (i : ℕ) → i < length row → (v : Option MinerState) × (get_elem? row i ≡ some v)
read-in [] i h = absurd (ground arith)
read-in (x ∷ row) zero h = (x, refl)
read-in (x ∷ row) (suc i) h = read-in row i (omega arith)

pub write-in :
    (row : Row) (i : ℕ) (v : Option MinerState) → i < length row → write row i v ≡ ok (set row i v)
write-in row i v h = if_true _ _ _ (lt→ltb i (length row) h)

pub get-set :
    (row : Row) (i : ℕ) (v : Option MinerState)
    → i < length row
    → get_elem? (set row i v) i ≡ some v
unfolding set
get-set [] i v h = absurd (ground arith)
get-set (x ∷ row) zero v h = refl
get-set (x ∷ row) (suc i) v h = get-set row i v (omega arith)

-- `covers` is an order that newer states respect.
pub covers_trans :
    (x y z : Option MinerState) → covers x y ≡ true → covers y z ≡ true → covers x z ≡ true
covers_trans x y none h k = refl
covers_trans x none (some s) h k = cc
covers_trans none (some r) (some s) h k = cc
covers_trans (some q) (some r) (some s) h k = ground arith

pub covers_refl : (x : Option MinerState) → covers x x ≡ true
covers_refl none = refl
covers_refl (some s) = ground arith

-- A state that is not newer than a slot is not newer than any slot before it.
not-older-covers :
    (x y : Option MinerState) (inv : MinerState)
    → covers x y ≡ true
    → is_older y inv ≡ false
    → is_older x inv ≡ false
not-older-covers x none inv h k = cc
not-older-covers none (some s) inv h k = cc
not-older-covers (some r) (some s) inv h k = ground arith

-- The slot at the end of a prefix.
All-get :
    (P : Option MinerState → Type 0) (row : Row) (i : ℕ) {v : Option MinerState}
    → All P (take (suc i) row)
    → get_elem? row i ≡ some v
    → P v
All-get P [] i h e = cc
All-get P (x ∷ row) zero h e = subst P (some-inj e) h.0
  where
    some-inj : {a b : Option MinerState} → some a ≡ some b → a ≡ b
    some-inj e = cc
All-get P (x ∷ row) (suc i) h e = All-get P row i h.1 e

All-take : (P : Option MinerState → Type 0) (row : Row) (n : ℕ) → All P row → All P (take n row)
All-take P row zero h = tt
All-take P [] (suc n) h = tt
All-take P (x ∷ row) (suc n) h = (h.0, All-take P row n h.1)

take-IsNewestFirst : (row : Row) (n : ℕ) → IsNewestFirst row → IsNewestFirst (take n row)
take-IsNewestFirst row zero s = tt
take-IsNewestFirst [] (suc n) s = tt
take-IsNewestFirst (x ∷ row) (suc n) s =
    (All-take (λ y. covers x y ≡ true) row n s.0, take-IsNewestFirst row n s.1)

take_less : (row : Row) (n : ℕ) → IsNewestFirst (take (suc n) row) → IsNewestFirst (take n row)
take_less row zero s = tt
take_less [] (suc n) s = tt
take_less (x ∷ row) (suc n) s = (fewer (λ y. covers x y ≡ true) row n s.0, take_less row n s.1)
  where
    fewer :
        (P : Option MinerState → Type 0) (row : Row) (n : ℕ)
        → All P (take (suc n) row)
        → All P (take n row)
    fewer P row zero h = tt
    fewer P [] (suc n) h = tt
    fewer P (y ∷ row) (suc n) h = (h.0, fewer P row n h.1)

take-set : (row : Row) (i : ℕ) (v : Option MinerState) → take i (set row i v) ≡ take i row
unfolding set
take-set row zero v = refl
take-set [] (suc i) v = refl
take-set (x ∷ row) (suc i) v = ap (◌∷◌ x) (take-set row i v)

-- Where a slot is not older than the state, raising up to it changes nothing.
raise_done :
    (row : Row) (i : ℕ) (inv : MinerState) {v : Option MinerState}
    → IsNewestFirst (take (suc i) row)
    → get_elem? row i ≡ some v
    → is_older v inv ≡ false
    → raise (suc i) inv row ≡ row
raise_done [] i inv s e o = refl
raise_done (x ∷ row) zero inv {v} s e o =
    ap (◌∷ row) (if_false _ _ _ (subst (λ y. is_older y inv ≡ false) (sym (same e)) o))
  where
    same : some x ≡ some v → x ≡ v
    same e = cc
raise_done (x ∷ row) (suc i) inv {v} s e o =
    ap (◌∷ raise (suc i) inv row)
      (if_false _ _ _ (not-older-covers x v inv (All-get (λ y. covers x y ≡ true) row i s.0 e) o))
    ∙ ap (◌∷◌ x) (raise_done row i inv s.1 e o)

raise-set :
    (row : Row) (i : ℕ) (inv : MinerState) {v : Option MinerState}
    → get_elem? row i ≡ some v
    → is_older v inv ≡ true
    → raise i inv (set row i (some inv)) ≡ raise (suc i) inv row
unfolding set
raise-set [] i inv e o = cc
raise-set (x ∷ row) zero inv {v} e o =
    ap (◌∷ row) (sym (if_true _ _ _ (subst (λ y. is_older y inv ≡ true) (sym (same e)) o)))
  where
    same : some x ≡ some v → x ≡ v
    same e = cc
raise-set (x ∷ row) (suc i) inv e o = ap (◌∷◌ (newer x inv)) (raise-set row i inv e o)

fill_newer-raise :
    (i : ℕ) (inv : MinerState) (row : Row)
    → i ≤ length row
    → IsNewestFirst (take i row)
    → fill_newer i inv row ≡ ok (raise i inv row)
unfolding fill_newer
fill_newer-raise zero inv row h s = refl
fill_newer-raise (suc i) inv row h s = go (read-in row i (omega arith)) (fill_newer-raise i inv)
  where
    go :
        (v : Option MinerState) × (get_elem? row i ≡ some v)
        → ((row' : Row)
            → i ≤ length row'
            → IsNewestFirst (take i row')
            → fill_newer i inv row' ≡ ok (raise i inv row'))
        → fill_newer (suc i) inv row ≡ ok (raise (suc i) inv row)
    go (v, e) ih = >>=-ok _ (ap slot e) (elim (Bool-cases (is_older v inv)) [
      | inl old ↦
          if_false _ _ _ (ap not old)
          ∙ >>=-ok _ (write-in row i (some inv) (omega arith)) (
              ih (set row i (some inv)) (omega (arith, length-set row i (some inv)))
                (subst IsNewestFirst (sym (take-set row i (some inv))) (take_less row i s))
              ∙ ap ok (raise-set row i inv e old))
      | inr new ↦ if_true _ _ _ (ap not new) ∙ ap ok (sym (raise_done row i inv s e new))
    ])

-- Raising up to a slot that is not older is raising the slots before it.
raise_one_more :
    (row : Row) (i : ℕ) (inv : MinerState) {v : Option MinerState}
    → get_elem? row i ≡ some v
    → is_older v inv ≡ false
    → raise i inv row ≡ raise (suc i) inv row
raise_one_more [] i inv e o = cc
raise_one_more (x ∷ row) zero inv {v} e o =
    ap (◌∷ row) (sym (if_false _ _ _ (subst (λ y. is_older y inv ≡ false) (sym (same e)) o)))
  where
    same : some x ≡ some v → x ≡ v
    same e = cc
raise_one_more (x ∷ row) (suc i) inv e o = ap (◌∷◌ (newer x inv)) (raise_one_more row i inv e o)

pub raise-length : (n : ℕ) (inv : MinerState) (row : Row) → length (raise n inv row) ≡ length row
raise-length zero inv row = refl
raise-length (suc n) inv [] = refl
raise-length (suc n) inv (x ∷ row) = ap suc (raise-length n inv row)

-- On a row that is newest first, `set_miners_at_index` brings each slot up to the state, from the slot
-- at `index` to the newest, and leaves the older slots.
pub set_existing-raise :
    (index : ℕ) (inv : MinerState) (row : Row)
    → index < length row
    → IsNewestFirst row
    → set_existing index inv row ≡ ok (raise (suc index) inv row)
unfolding set_existing
set_existing-raise index inv row h s = go (read-in row index h)
  where
    go :
        (v : Option MinerState) × (get_elem? row index ≡ some v)
        → set_existing index inv row ≡ ok (raise (suc index) inv row)
    go (v, e) = >>=-ok _ (ap slot e) (elim (Bool-cases (is_older v inv)) [
      | inl old ↦ >>=-ok _ (if_true _ _ _ old ∙ write-in row index (some inv) h) (
          fill_newer-raise index inv (set row index (some inv))
            (omega (arith, length-set row index (some inv)))
            (subst IsNewestFirst (sym (take-set row index (some inv)))
              (take-IsNewestFirst row index s))
          ∙ ap ok (raise-set row index inv e old))
      | inr new ↦ >>=-ok _ (if_false _ _ _ new) (
          fill_newer-raise index inv row (omega arith) (take-IsNewestFirst row index s)
          ∙ ap ok (raise_one_more row index inv e new))
    ])
