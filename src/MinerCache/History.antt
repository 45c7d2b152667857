-- ===== src/MinerCache/History.antt =====
-- The invariant of a row of fs_miner_cache.go, which each way of writing a row keeps.
use filscan_backend.Prelude.{
  ℕ, zero, suc, ◌<◌, ◌≡◌, refl, sym, ap, ◌∙◌, true, is_some, String, Option, none, some, [], ◌∷◌,
  subst, length, All, arith, Bool-cases, inl, inr, if_true, if_false,
}
use filscan_backend.MinerCache.{MinerState, Row, is_older, empty_row}
use filscan_backend.MinerCache.Rows.{
  newer, raise, stamp, covers, covers_refl, IsNewestFirst, raise-length,
}
use filscan_backend.MinerCache.Stamps.{length-stamp, length-empty_row, age, carry}

abbrev pub Belongs : String → Option MinerState → Type 0
Belongs k none = Unit
Belongs k (some s) = s.miner_addr ≡ k

abbrev pub front_of : Row → Option MinerState
front_of [] = none
front_of (x ∷ row) = x

-- A row of `n` slots of the miner `k`: its states are the miner's and newest first, and the newest slot
-- has one.
pub record IsRow (n : ℕ) (k : String) (row : Row) : Type 0 where
  pub sized : length row ≡ n
  pub owned : All (Belongs k) row
  pub history : IsNewestFirst row
  pub front : is_some (front_of row) ≡ true

newer-Belongs :
    (k : String) (x : Option MinerState) (inv : MinerState)
    → Belongs k x
    → inv.miner_addr ≡ k
    → Belongs k (newer x inv)
newer-Belongs k x inv b e = elim (Bool-cases (is_older x inv)) [
  | inl old ↦ subst (Belongs k) (sym (if_true _ (some inv) x old)) e
  | inr new ↦ subst (Belongs k) (sym (if_false _ (some inv) x new)) b
]

raise-Belongs :
    (n : ℕ) (k : String) (inv : MinerState) (row : Row)
    → inv.miner_addr ≡ k
    → All (Belongs k) row
    → All (Belongs k) (raise n inv row)
raise-Belongs zero k inv row e h = h
raise-Belongs (suc n) k inv [] e h = tt
raise-Belongs (suc n) k inv (x ∷ row) e h =
    (newer-Belongs k x inv h.0 e, raise-Belongs n k inv row e h.1)

-- A newer slot covers what its neighbour becomes.
newer-covers :
    (x y : Option MinerState) (inv : MinerState)
    → covers x y ≡ true
    → covers (newer x inv) (newer y inv) ≡ true
newer-covers none none inv h = ground arith
newer-covers none (some s) inv h = cc
newer-covers (some r) none inv h = ground arith
newer-covers (some r) (some s) inv h = ground arith

newer-covers_old :
    (x y : Option MinerState) (inv : MinerState) → covers x y ≡ true → covers (newer x inv) y ≡ true
newer-covers_old x none inv h = refl
newer-covers_old none (some s) inv h = cc
newer-covers_old (some r) (some s) inv h = ground arith

raise-covers :
    (n : ℕ) (inv : MinerState) (x : Option MinerState) (row : Row)
    → All (λ y. covers x y ≡ true) row
    → All (λ y. covers (newer x inv) y ≡ true) (raise n inv row)
raise-covers zero inv x [] h = tt
raise-covers zero inv x (y ∷ row) h =
    (newer-covers_old x y inv h.0, raise-covers zero inv x row h.1)
raise-covers (suc n) inv x [] h = tt
raise-covers (suc n) inv x (y ∷ row) h = (newer-covers x y inv h.0, raise-covers n inv x row h.1)

raise-IsNewestFirst :
    (n : ℕ) (inv : MinerState) (row : Row) → IsNewestFirst row → IsNewestFirst (raise n inv row)
raise-IsNewestFirst zero inv row s = s
raise-IsNewestFirst (suc n) inv [] s = tt
raise-IsNewestFirst (suc n) inv (x ∷ row) s =
    (raise-covers n inv x row s.0, raise-IsNewestFirst n inv row s.1)

pub raise-IsRow :
    {n : ℕ} {k : String} (i : ℕ) (inv : MinerState) (row : Row)
    → inv.miner_addr ≡ k
    → IsRow n k row
    → IsRow n k (raise i inv row)
raise-IsRow {n} {k} i inv row e v = record {
  sized = raise-length i inv row ∙ v.sized;
  owned = raise-Belongs i k inv row e v.owned;
  history = raise-IsNewestFirst i inv row v.history;
  front = front_kept i row v.front;
}
  where
    front_kept :
        (i : ℕ) (row : Row)
        → is_some (front_of row) ≡ true
        → is_some (front_of (raise i inv row)) ≡ true
    front_kept zero row h = h
    front_kept (suc i) [] h = h
    front_kept (suc i) (none ∷ row) h = refl
    front_kept (suc i) (some s ∷ row) h = ground arith

stamp-raise : (i n : ℕ) (inv : MinerState) → stamp i inv (empty_row n) ≡ raise i inv (empty_row n)
unfolding empty_row
stamp-raise zero n inv = refl
stamp-raise (suc i) zero inv = refl
stamp-raise (suc i) (suc n) inv = ap (◌∷◌ (some inv)) (stamp-raise i n inv)

All-empty_row : (P : Option MinerState → Type 0) (n : ℕ) → P none → All P (empty_row n)
unfolding empty_row
All-empty_row P zero p = tt
All-empty_row P (suc n) p = (p, All-empty_row P n p)

empty_row-IsNewestFirst : (n : ℕ) → IsNewestFirst (empty_row n)
unfolding empty_row
empty_row-IsNewestFirst zero = tt
empty_row-IsNewestFirst (suc n) =
    (All-empty_row (λ y. covers none y ≡ true) n refl, empty_row-IsNewestFirst n)

-- What `set_new` and `set_over` write.
pub stamp-IsRow :
    (n i : ℕ) (inv : MinerState) → i < n → IsRow n inv.miner_addr (stamp (suc i) inv (empty_row n))
unfolding empty_row
stamp-IsRow n i inv h = record {
  sized = length-stamp (suc i) inv (empty_row n) ∙ length-empty_row n;
  owned = subst (All (Belongs inv.miner_addr)) (sym (stamp-raise (suc i) n inv)) (
      raise-Belongs (suc i) inv.miner_addr inv (empty_row n) refl
        (All-empty_row (Belongs inv.miner_addr) n tt));
  history =
      subst IsNewestFirst (sym (stamp-raise (suc i) n inv))
        (raise-IsNewestFirst (suc i) inv (empty_row n) (empty_row-IsNewestFirst n));
  front = first n h;
}
  where
    first : (n : ℕ) → i < n → is_some (front_of (stamp (suc i) inv (empty_row n))) ≡ true
    first zero h = absurd (ground arith)
    first (suc n) h = refl

carry-All :
    (P : Option MinerState → Type 0) (i : ℕ) (x : Option MinerState) (row : Row)
    → P x
    → All P row
    → All P (carry i x row)
carry-All P zero x row p h = h
carry-All P (suc i) x [] p h = tt
carry-All P (suc i) x (y ∷ row) p h = (p, carry-All P i y row h.0 h.1)

carry-IsNewestFirst :
    (i : ℕ) (x : Option MinerState) (row : Row)
    → IsNewestFirst (x ∷ row)
    → IsNewestFirst (x ∷ carry i x row)
carry-IsNewestFirst i x row s =
    (carry-All (λ y. covers x y ≡ true) i x row (covers_refl x) s.0, inner i x row s)
  where
    inner :
        (i : ℕ) (x : Option MinerState) (row : Row)
        → IsNewestFirst (x ∷ row)
        → IsNewestFirst (carry i x row)
    inner zero x row s = s.1
    inner (suc i) x [] s = tt
    inner (suc i) x (y ∷ row) s =
        (carry-All (λ z. covers x z ≡ true) i y row s.0.0 s.0.1, inner i y row s.1)

carry-length : (i : ℕ) (x : Option MinerState) (row : Row) → length (carry i x row) ≡ length row
carry-length zero x row = refl
carry-length (suc i) x [] = refl
carry-length (suc i) x (y ∷ row) = ap suc (carry-length i y row)

pub age-IsRow : {n : ℕ} {k : String} (i : ℕ) (row : Row) → IsRow n k row → IsRow n k (age i row)
age-IsRow i [] v = v
age-IsRow {n} {k} i (x ∷ row) v = record {
  sized = ap suc (carry-length i x row) ∙ v.sized;
  owned = (v.owned.0, carry-All (Belongs k) i x row v.owned.0 v.owned.1);
  history = carry-IsNewestFirst i x row v.history;
  front = v.front;
}
