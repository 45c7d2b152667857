-- ===== src/MinerCache/Stamps.antt =====
-- The loops of fs_miner_cache.go that write a new row, take over a row, and shift a row by a period.
use filscan_backend.Prelude.{
  ℕ, zero, suc, ◌+◌, ◌-◌, ◌≤◌, ◌<◌, ◌≡◌, refl, sym, ap, ◌∙◌, Option, none, some, [], ◌∷◌, length,
  get_elem?, ok, ◌>>=◌, arith, >>=-ok,
}
use filscan_backend.MinerCache.{
  MinerState, Row, slot, set, write, copy_newer, clear_older, empty_row, set_new, set_over,
}
use filscan_backend.MinerCache.Update.{age_row}
use filscan_backend.MinerCache.Rows.{stamp, length-set, get-set, read-in, write-in}

some-inj : {a b : Option MinerState} → some a ≡ some b → a ≡ b
some-inj e = cc

pub length-empty_row : (n : ℕ) → length (empty_row n) ≡ n
unfolding empty_row
length-empty_row zero = refl
length-empty_row (suc n) = ap suc (length-empty_row n)

pub length-stamp : (n : ℕ) (inv : MinerState) (row : Row) → length (stamp n inv row) ≡ length row
length-stamp zero inv row = refl
length-stamp (suc n) inv [] = refl
length-stamp (suc n) inv (x ∷ row) = ap suc (length-stamp n inv row)

stamp-set :
    (i : ℕ) (inv : MinerState) (row : Row) (v : Option MinerState)
    → stamp (suc i) inv (set row i v) ≡ stamp (suc i) inv row
unfolding set
stamp-set i inv [] v = refl
stamp-set zero inv (x ∷ row) v = refl
stamp-set (suc i) inv (x ∷ row) v = ap (◌∷◌ (some inv)) (stamp-set i inv row v)

stamp_one_more :
    (i : ℕ) (inv : MinerState) (row : Row)
    → get_elem? row i ≡ some (some inv)
    → stamp (suc i) inv row ≡ stamp i inv row
stamp_one_more i inv [] e = cc
stamp_one_more zero inv (x ∷ row) e = ap (◌∷ row) (sym (some-inj e))
stamp_one_more (suc i) inv (x ∷ row) e = ap (◌∷◌ (some inv)) (stamp_one_more i inv row e)

get-set_other :
    (row : Row) (i : ℕ) (v : Option MinerState)
    → get_elem? (set row i v) (suc i) ≡ get_elem? row (suc i)
unfolding set
get-set_other [] i v = refl
get-set_other (x ∷ row) zero v = refl
get-set_other (x ∷ row) (suc i) v = get-set_other row i v

-- The state in slot `i` is copied to all newer slots.
copy_newer-stamp :
    (i : ℕ) (inv : MinerState) (row : Row)
    → i < length row
    → get_elem? row i ≡ some (some inv)
    → copy_newer i row ≡ ok (stamp (suc i) inv row)
unfolding copy_newer
copy_newer-stamp zero inv [] h e = cc
copy_newer-stamp zero inv (x ∷ row) h e = ap (λ y. ok (y ∷ row)) (some-inj e)
copy_newer-stamp (suc i) inv row h e = >>=-ok _ (ap slot e) (
    >>=-ok _ (write-in row i (some inv) (omega arith)) (
      copy_newer-stamp i inv (set row i (some inv)) (omega (arith, length-set row i (some inv)))
        (get-set row i (some inv) (omega arith))
      ∙ ap ok (stamp-set i inv row (some inv) ∙ sym (stamp_one_more (suc i) inv row e))))

set-stamp :
    (index : ℕ) (inv : MinerState) (row : Row)
    → index < length row
    → (write row index (some inv) >>= copy_newer index) ≡ ok (stamp (suc index) inv row)
set-stamp index inv row h = >>=-ok _ (write-in row index (some inv) h) (
    copy_newer-stamp index inv (set row index (some inv))
      (omega (arith, length-set row index (some inv))) (get-set row index (some inv) h)
    ∙ ap ok (stamp-set index inv row (some inv)))

-- A new row holds the state from its slot to the newest, and nothing in the older slots.
pub set_new-stamp :
    (n index : ℕ) (inv : MinerState)
    → index < n
    → set_new n index inv ≡ ok (stamp (suc index) inv (empty_row n))
unfolding set_new
set_new-stamp n index inv h = set-stamp index inv (empty_row n) (omega (arith, length-empty_row n))

-- `row` with nothing in the slots from `i` on.
abbrev cut : ℕ → Row → Row
cut i [] = []
cut zero (x ∷ row) = none ∷ cut zero row
cut (suc i) (x ∷ row) = x ∷ cut i row

cut-set : (i : ℕ) (row : Row) → cut (suc i) (set row i none) ≡ cut i row
unfolding set
cut-set i [] = refl
cut-set zero (x ∷ row) = refl
cut-set (suc i) (x ∷ row) = ap (◌∷◌ x) (cut-set i row)

cut-past : (i : ℕ) (row : Row) → length row ≤ i → cut i row ≡ row
cut-past i [] h = refl
cut-past zero (x ∷ row) h = absurd (ground arith)
cut-past (suc i) (x ∷ row) h = ap (◌∷◌ x) (cut-past i row (omega arith))

clear_older-cut :
    (rounds i : ℕ) (row : Row) → i + rounds ≡ length row → clear_older rounds i row ≡ ok (cut i row)
unfolding clear_older
clear_older-cut zero i row h = ap ok (sym (cut-past i row (omega arith)))
clear_older-cut (suc rounds) i row h = >>=-ok _ (write-in row i none (omega arith)) (
    clear_older-cut rounds (suc i) (set row i none) (omega (arith, length-set row i none))
    ∙ ap ok (cut-set i row))

cut-stamp :
    (i : ℕ) (inv : MinerState) (row : Row)
    → cut i (stamp i inv row) ≡ stamp i inv (empty_row (length row))
unfolding empty_row
cut-stamp zero inv [] = refl
cut-stamp zero inv (x ∷ row) = ap (◌∷◌ none) (cut-stamp zero inv row)
cut-stamp (suc i) inv [] = refl
cut-stamp (suc i) inv (x ∷ row) = ap (◌∷◌ (some inv)) (cut-stamp i inv row)

-- A row that is taken over looks like a new one.
pub set_over-stamp :
    (n index : ℕ) (inv : MinerState) (row : Row)
    → length row ≡ n
    → index < n
    → set_over n index inv row ≡ ok (stamp (suc index) inv (empty_row n))
unfolding set_over
set_over-stamp n index inv row e h = >>=-ok _ (write-in row index (some inv) (omega arith)) (
    >>=-ok _
      (copy_newer-stamp index inv (set row index (some inv))
          (omega (arith, length-set row index (some inv)))
          (get-set row index (some inv) (omega arith))
        ∙ ap ok (stamp-set index inv row (some inv)))
      (clear_older-cut (n - suc index) (suc index) (stamp (suc index) inv row)
          (omega (arith, length-stamp (suc index) inv row))
        ∙ ap ok (cut-stamp (suc index) inv row)
        ∙ ap (λ k. ok (stamp (suc index) inv (empty_row k))) e))

-- The newest slot is kept and each other one gets the slot before it, up to slot `i`.
abbrev pub carry : ℕ → Option MinerState → Row → Row
carry zero x row = row
carry (suc i) x [] = []
carry (suc i) x (y ∷ row) = x ∷ carry i y row

abbrev pub age : ℕ → Row → Row
age i [] = []
age i (x ∷ row) = x ∷ carry i x row

age-set :
    (i : ℕ) (row : Row) (v : Option MinerState)
    → get_elem? row i ≡ some v
    → age i (set row (suc i) v) ≡ age (suc i) row
unfolding set
age-set i [] v e = cc
age-set i (x ∷ row) v e = ap (◌∷◌ x) (inner i x row e)
  where
    inner :
        (i : ℕ) (x : Option MinerState) (row : Row)
        → get_elem? (x ∷ row) i ≡ some v
        → carry i x (set row i v) ≡ carry (suc i) x row
    inner zero x [] e = refl
    inner zero x (y ∷ row) e = ap (◌∷ row) (sym (some-inj e))
    inner (suc i) x [] e = refl
    inner (suc i) x (y ∷ row) e = ap (◌∷◌ x) (inner i y row e)

pub age_row-age : (i : ℕ) (row : Row) → i < length row → age_row i row ≡ ok (age i row)
unfolding age_row
age_row-age zero [] h = refl
age_row-age zero (x ∷ row) h = refl
age_row-age (suc i) row h = go (read-in row i (omega arith)) (age_row-age i)
  where
    go :
        (v : Option MinerState) × (get_elem? row i ≡ some v)
        → ((row' : Row) → i < length row' → age_row i row' ≡ ok (age i row'))
        → age_row (suc i) row ≡ ok (age (suc i) row)
    go (v, e) ih = >>=-ok _ (ap slot e) (
        >>=-ok _ (write-in row (suc i) v h) (
          ih (set row (suc i) v) (omega (arith, length-set row (suc i) v))
          ∙ ap ok (age-set i row v e)))
