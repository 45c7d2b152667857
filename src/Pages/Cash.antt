-- ===== src/Pages/Cash.antt =====
-- The page of what is cached in controllers/tipsetqueue_DB.go, and the lemmas on parts of lists.
use filscan_backend.Prelude.{
  ℕ, ◌<◌, lt→ltb, zero, suc, ◌+◌, ◌-◌, ◌≤◌, ◌≡◌, refl, sym, ap, ◌∙◌, false, ◌&&◌, List, [], ◌∷◌,
  ◌++◌, length, take, drop, ltb, leb, string_eq, if◌then◌else◌, ok, arith, inl, inr, Bool-cases,
  if_true, if_false, >>=-ok, length-drop,
}
use filscan_backend.Prelude.Int.{pos, ◌+ℤ◌, ltb_ℤ}
use filscan_backend.Queue.{slice}
use filscan_backend.Pages.{cash_part}

sum_of_pos : (a b : ℕ) → pos a +ℤ pos b ≡ pos (a + b)
sum_of_pos a b = ground arith

pub pos_less : (a b : ℕ) → ltb_ℤ (pos a) (pos b) ≡ ltb a b
pos_less a b = ground arith

within : (s n : ℕ) → (ltb 0 n && ltb_ℤ (pos s) (pos n)) ≡ ltb s n
within s n = ground arith

module _ {A : Type 0} where
  pub drop-past : (n : ℕ) (l : List A) → length l ≤ n → drop n l ≡ []
  drop-past zero [] h = refl
  drop-past zero (x ∷ l) h = absurd (ground arith)
  drop-past (suc n) [] h = refl
  drop-past (suc n) (x ∷ l) h = drop-past n l (omega arith)

  pub take-past : (n : ℕ) (l : List A) → length l ≤ n → take n l ≡ l
  take-past zero [] h = refl
  take-past zero (x ∷ l) h = absurd (ground arith)
  take-past (suc n) [] h = refl
  take-past (suc n) (x ∷ l) h = ap (◌∷◌ x) (take-past n l (omega arith))

  pub take-nil : (n : ℕ) → take {A = A} n [] ≡ []
  take-nil zero = refl
  take-nil (suc n) = refl

  pub drop-append_past :
      (s : ℕ) (xs ys : List A) → length xs ≤ s → drop s (xs ++ ys) ≡ drop (s - length xs) ys
  drop-append_past s [] ys h = ap (λ n. drop n ys) (omega arith)
  drop-append_past zero (x ∷ xs) ys h = absurd (ground arith)
  drop-append_past (suc s) (x ∷ xs) ys h =
      drop-append_past s xs ys (omega arith) ∙ ap (λ n. drop n ys) (omega arith)

  pub drop-append : (s : ℕ) (xs ys : List A) → s ≤ length xs → drop s (xs ++ ys) ≡ drop s xs ++ ys
  drop-append zero xs ys h = refl
  drop-append (suc s) [] ys h = absurd (ground arith)
  drop-append (suc s) (x ∷ xs) ys h = drop-append s xs ys (omega arith)

  pub take-append : (c : ℕ) (xs ys : List A) → c ≤ length xs → take c (xs ++ ys) ≡ take c xs
  take-append zero xs ys h = refl
  take-append (suc c) [] ys h = absurd (ground arith)
  take-append (suc c) (x ∷ xs) ys h = ap (◌∷◌ x) (take-append c xs ys (omega arith))

  slice-take :
      (lo hi : ℕ) (l : List A)
      → lo ≤ hi
      → slice l (pos lo) (pos hi) ≡ ok (take (hi - lo) (drop lo l))
  unfolding slice
  slice-take lo hi l h = if_true (leb lo hi) _ _ (ground arith)

  part :
      (s c : ℕ) (l : List A)
      → s ≤ length l
      → (if ltb_ℤ (pos s +ℤ pos c) (pos (length l))
          then slice l (pos s) (pos s +ℤ pos c)
          else slice l (pos s) (pos (length l)))
        ≡ ok (take c (drop s l))
  part s c l h = elim (Bool-cases (ltb (s + c) (length l))) [
    | inl more ↦
        if_true _ _ _
          (ap (λ z. ltb_ℤ z (pos (length l))) (sum_of_pos s c) ∙ pos_less (s + c) (length l) ∙ more)
        ∙ ap (slice l (pos s)) (sum_of_pos s c)
        ∙ slice-take s (s + c) l (omega arith)
        ∙ ap (λ n. ok (take n (drop s l))) (omega arith)
    | inr last ↦
        if_false _ _ _
          (ap (λ z. ltb_ℤ z (pos (length l))) (sum_of_pos s c) ∙ pos_less (s + c) (length l) ∙ last)
        ∙ slice-take s (length l) l h
        ∙ ap ok (
            take-past (length l - s) (drop s l) (omega (arith, length-drop s l))
            ∙ sym (take-past c (drop s l) (ground (arith, length-drop s l))))
  ]

  -- The page of the cached items.
  pub cash_part-inside :
      (others : List A) (s c : ℕ) (l : List A)
      → s < length l
      → cash_part others (pos s) (pos c) l ≡ ok (take c (drop s l), 0)
  unfolding cash_part
  cash_part-inside others s c l h =
      if_true _ _ _ (within s (length l) ∙ lt→ltb s (length l) h)
      ∙ >>=-ok (λ page. ok (page, 0)) (part s c l (omega arith)) refl

  -- Behind them there is none.
  pub cash_part-past :
      (others : List A) (s c : ℕ) (l : List A)
      → length l ≤ s
      → cash_part others (pos s) (pos c) l ≡ ok (others, length l)
  unfolding cash_part
  cash_part-past others s c l h = if_false _ _ _ (within s (length l) ∙ not_less s (length l) h)
    where
      not_less : (a b : ℕ) → b ≤ a → ltb a b ≡ false
      not_less a b h = ground arith

  pub cash_part-page :
      (s c : ℕ) (l : List A)
      → cash_part [] (pos s) (pos c) l
        ≡ ok (take c (drop s l), if ltb s (length l) then 0 else length l)
  cash_part-page s c l = elim (Bool-cases (ltb s (length l))) [
    | inl inside ↦
        cash_part-inside [] s c l (ground arith)
        ∙ ap (λ n. ok (take c (drop s l), n)) (sym (if_true _ _ _ inside))
    | inr past ↦
        cash_part-past [] s c l (ground arith)
        ∙ ap (λ page. ok (page, length l))
            (sym (ap (take c) (drop-past s l (ground arith)) ∙ take-nil c))
        ∙ ap (λ n. ok (take c (drop s l), n)) (sym (if_false _ _ _ past))
  ]
