-- ===== src/MinerCache/Table.antt =====
-- The map of fs_miner_cache.go: what storing and deleting a row does to the entries, their number and
-- the look-ups.
use filscan_backend.Prelude.{
  suc, ◌≡◌, ◌⊎◌, refl, sym, ap, ◌∙◌, false, String, none, some, [], ◌∷◌, subst, length, All, ◌==◌,
  string_eq, if◌then◌else◌, arith, Bool-cases, inl, inr, if_true, if_false, ==_iff,
}
use filscan_backend.MinerCache.{Row, Miners, lookup, store, delete}

-- No two entries have one key.
abbrev pub IsDistinct : Miners → Type 0
IsDistinct [] = Unit
IsDistinct ((k, row) ∷ m) = All (λ e. (e.0 == k) ≡ false) m × IsDistinct m

abbrev Entries : Type 1
Entries = String × Row → Type 0

pub store-All :
    (P : Entries) (k : String) (row : Row) (m : Miners)
    → P (k, row)
    → All P m
    → All P (store k row m)
unfolding store
store-All P k row [] p h = (p, tt)
store-All P k row ((j, old) ∷ m) p h = elim (Bool-cases (j == k)) [
  | inl same ↦ subst (All P) (sym (if_true (j == k) _ _ same)) (p, h.1)
  | inr other ↦ subst (All P) (sym (if_false (j == k) _ _ other)) (h.0, store-All P k row m p h.1)
]

pub delete-All : (P : Entries) (k : String) (m : Miners) → All P m → All P (delete k m)
unfolding delete
delete-All P k [] h = tt
delete-All P k ((j, old) ∷ m) h = elim (Bool-cases (j == k)) [
  | inl same ↦ subst (All P) (sym (if_true (j == k) _ _ same)) h.1
  | inr other ↦ subst (All P) (sym (if_false (j == k) _ _ other)) (h.0, delete-All P k m h.1)
]

-- Storing changes no other key, so that keys stay distinct.
store_avoids :
    (k j : String) (row : Row) (m : Miners)
    → (k == j) ≡ false
    → All (λ e. (e.0 == j) ≡ false) m
    → All (λ e. (e.0 == j) ≡ false) (store k row m)
store_avoids k j row m n h = store-All (λ e. (e.0 == j) ≡ false) k row m n h

flip_false : (j k : String) → (j == k) ≡ false → (k == j) ≡ false
flip_false j k h = ground (arith, ==_iff j k, ==_iff k j)

pub store-IsDistinct :
    (k : String) (row : Row) (m : Miners) → IsDistinct m → IsDistinct (store k row m)
unfolding store
store-IsDistinct k row [] h = (tt, tt)
store-IsDistinct k row ((j, old) ∷ m) h = elim (Bool-cases (j == k)) [
  | inl same ↦
      subst IsDistinct (sym (if_true (j == k) _ _ same))
        (subst (λ i. All (λ e. (e.0 == i) ≡ false) m) ((==_iff j k).0 same) h.0, h.1)
  | inr other ↦
      subst IsDistinct (sym (if_false (j == k) _ _ other))
        (store_avoids k j row m (flip_false j k other) h.0, store-IsDistinct k row m h.1)
]

pub delete-IsDistinct : (k : String) (m : Miners) → IsDistinct m → IsDistinct (delete k m)
unfolding delete
delete-IsDistinct k [] h = tt
delete-IsDistinct k ((j, old) ∷ m) h = elim (Bool-cases (j == k)) [
  | inl same ↦ subst IsDistinct (sym (if_true (j == k) _ _ same)) h.1
  | inr other ↦
      subst IsDistinct (sym (if_false (j == k) _ _ other))
        (delete-All (λ e. (e.0 == j) ≡ false) k m h.0, delete-IsDistinct k m h.1)
]

length-store :
    (k : String) (row : Row) (m : Miners)
    → ((lookup k m ≡ none) × (length (store k row m) ≡ suc (length m)))
      ⊎ ((old : Row) × (lookup k m ≡ some old) × (length (store k row m) ≡ length m))
unfolding store lookup
length-store k row [] = inl (refl, refl)
length-store k row ((j, old) ∷ m) = elim (Bool-cases (j == k)) [
  | inl same ↦ inr (old, if_true (j == k) _ _ same, ap length (if_true (j == k) _ _ same))
  | inr other ↦ elim (length-store k row m) [
    | inl (absent, longer) ↦ inl (
      if_false (j == k) _ _ other ∙ absent,
      ap length (if_false (j == k) _ _ other) ∙ ap suc longer,
    )
    | inr (was, present, equal) ↦ inr (
      was,
      if_false (j == k) _ _ other ∙ present,
      ap length (if_false (j == k) _ _ other) ∙ ap suc equal,
    )
  ]
]

pub length-store_new :
    (k : String) (row : Row) (m : Miners)
    → lookup k m ≡ none
    → length (store k row m) ≡ suc (length m)
length-store_new k row m absent = elim (length-store k row m) [
  | inl (none_there, longer) ↦ longer
  | inr (old, present, equal) ↦ cc (present, absent)
]

pub length-store_old :
    (k : String) (row : Row) (m : Miners) {old : Row}
    → lookup k m ≡ some old
    → length (store k row m) ≡ length m
length-store_old k row m present = elim (length-store k row m) [
  | inl (absent, longer) ↦ cc (present, absent)
  | inr (old, there, equal) ↦ equal
]

-- A key that is looked up with success is deleted with one entry.
pub length-delete :
    (k : String) (m : Miners) {row : Row}
    → lookup k m ≡ some row
    → suc (length (delete k m)) ≡ length m
unfolding delete lookup
length-delete k [] e = cc
length-delete k ((j, old) ∷ m) {row} e = elim (Bool-cases (j == k)) [
  | inl same ↦ ap (λ (l : Miners). suc (length l)) (if_true (j == k) _ _ same)
  | inr other ↦
      ap (λ (l : Miners). suc (length l)) (if_false (j == k) _ _ other)
      ∙ ap suc (length-delete k m (sym (if_false (j == k) _ _ other) ∙ e))
]

pub lookup-store_other :
    (k j : String) (row : Row) (m : Miners)
    → (j == k) ≡ false
    → lookup k (store j row m) ≡ lookup k m
unfolding store lookup
lookup-store_other k j row [] n = if_false (j == k) _ _ n
lookup-store_other k j row ((i, old) ∷ m) n = elim (Bool-cases (i == j)) [
  | inl same ↦
      ap (lookup k) (if_true (i == j) _ _ same)
      ∙ if_false (j == k) _ _ n
      ∙ sym (if_false (i == k) _ _ (subst (λ x. (x == k) ≡ false) (sym ((==_iff i j).0 same)) n))
  | inr other ↦
      ap (lookup k) (if_false (i == j) _ _ other)
      ∙ ap (λ r. if i == k then some old else r) (lookup-store_other k j row m n)
]

-- An entry is found by its key.
pub found_by_key : (m : Miners) → IsDistinct m → All (λ e. lookup e.0 m ≡ some e.1) m
unfolding lookup
found_by_key [] h = tt
found_by_key ((k, row) ∷ m) h =
    (if_true (k == k) _ _ ((==_iff k k).1 refl), behind m h.0 (found_by_key m h.1))
  where
    behind :
        (l : Miners)
        → All (λ e. (e.0 == k) ≡ false) l
        → All (λ e. lookup e.0 m ≡ some e.1) l
        → All (λ e. (if k == e.0 then some row else lookup e.0 m) ≡ some e.1) l
    behind [] a b = tt
    behind (e ∷ l) a b = (if_false (k == e.0) _ _ (flip_false e.0 k a.0) ∙ b.0, behind l a.1 b.1)

pub lookup-All :
    (P : Entries) (k : String) (m : Miners) {row : Row}
    → All P m
    → lookup k m ≡ some row
    → P (k, row)
unfolding lookup
lookup-All P k [] h e = cc
lookup-All P k ((j, old) ∷ m) {row} h e = elim (Bool-cases (j == k)) [
  | inl same ↦
      subst (λ i. P (i, row)) ((==_iff j k).0 same)
        (subst (λ r. P (j, r)) (some-inj (sym (if_true (j == k) _ _ same) ∙ e)) h.0)
  | inr other ↦ lookup-All P k m h.1 (sym (if_false (j == k) _ _ other) ∙ e)
]
  where
    some-inj : {a b : Row} → some a ≡ some b → a ≡ b
    some-inj e = cc
