-- ===== src/TipsetCache/Queries/Heights.antt =====
-- The lookups by height and by time.
use filscan_backend.Prelude.{
  ℕ, suc, ◌+◌, ◌<◌, ◌≤◌, ◌≡◌, refl, Bool, ◌&&◌, Option, none, some, List, [], ◌∷◌, ◌++◌, reverse,
  ltb, leb, nat_eq, if◌then◌else◌, All, filter, arith, Option-cases, inl, inr, ok, ◌>>=◌,
}
use mathlib.Core.List.{reverse-cons}
use filscan_backend.Chain.{Element, TipsetOps}
use filscan_backend.BlockMessage.{TipsetBlockMessages}
use filscan_backend.TipsetCache.{FsTipsetCache}
use filscan_backend.TipsetCache.Fork.{IsPresent}
use filscan_backend.TipsetCache.Queries.{
  to_element, height_loop, find_tipset_height, in_height_loop, find_tipset_in_height, count_loop,
  tipset_count_in_time,
}

abbrev pub head? {ℓ} : {A : Type ℓ} → List A → Option A
head? [] = none
head? (x ∷ xs) = some x

abbrev pub in_range : ℕ → ℕ → ℕ → Bool
in_range start end h = leb start h && leb h end

module _ {T : Type 0} ⦃ops : TipsetOps T⦄ where
  abbrev pub height_of : TipsetBlockMessages T → ℕ
  height_of x = elim x.tipset [ none ↦ 0 | some t ↦ ops.height t ]

  -- The elements that a list of cached tipsets stands for.
  abbrev pub elements : List (TipsetBlockMessages T) → List (Element T)
  elements [] = []
  elements (x ∷ l) = elim x.tipset [ none ↦ elements l | some t ↦ to_element x t ∷ elements l ]

  -- Heights fall from the front to the back.
  abbrev pub IsDescending : List (TipsetBlockMessages T) → Type 0
  IsDescending [] = Unit {0}
  IsDescending (x ∷ l) = All (λ y. height_of y < height_of x) l × IsDescending l

  abbrev IsAscending : List (TipsetBlockMessages T) → Type 0
  IsAscending [] = Unit {0}
  IsAscending (x ∷ l) = All (λ y. height_of x < height_of y) l × IsAscending l

  All-snoc :
      (P : TipsetBlockMessages T → Type 0) (xs : List (TipsetBlockMessages T))
      (y : TipsetBlockMessages T)
      → All P xs
      → P y
      → All P (xs ++ y ∷ [])
  All-snoc P [] y h k = (k, tt)
  All-snoc P (x ∷ xs) y h k = (h.0, All-snoc P xs y h.1 k)

  All-reverse :
      (P : TipsetBlockMessages T → Type 0) (xs : List (TipsetBlockMessages T))
      → All P xs
      → All P (reverse xs)
  All-reverse P [] h = tt
  All-reverse P (x ∷ xs) h =
      rw (reverse-cons x xs) (All-snoc P (reverse xs) x (All-reverse P xs h.1) h.0)

  IsAscending-snoc :
      (xs : List (TipsetBlockMessages T)) (y : TipsetBlockMessages T)
      → IsAscending xs
      → All (λ x. height_of x < height_of y) xs
      → IsAscending (xs ++ y ∷ [])
  IsAscending-snoc [] y a h = (tt, tt)
  IsAscending-snoc (x ∷ xs) y a h =
      (All-snoc (λ z. height_of x < height_of z) xs y a.0 h.0, IsAscending-snoc xs y a.1 h.1)

  reverse-IsAscending :
      (l : List (TipsetBlockMessages T)) → IsDescending l → IsAscending (reverse l)
  reverse-IsAscending [] d = tt
  reverse-IsAscending (x ∷ l) d = rw (reverse-cons x l) (
      IsAscending-snoc (reverse l) x (reverse-IsAscending l d.1)
        (All-reverse (λ y. height_of y < height_of x) l d.0))

  abbrev pub ranged : ℕ → ℕ → List (TipsetBlockMessages T) → List (Element T)
  ranged start end l = elements (filter (λ x. in_range start end (height_of x)) l)

  ranged_above :
      (start end h : ℕ) (l : List (TipsetBlockMessages T))
      → end < h
      → All (λ y. h < height_of y) l
      → ranged start end l ≡ []
  ranged_above start end h [] b a = refl
  ranged_above start end h (x ∷ l) b a = ground (arith, ranged_above start end h l b a.1)

  in_height_loop-ranged :
      (start end : ℕ) (l : List (TipsetBlockMessages T))
      → All IsPresent l
      → IsAscending l
      → in_height_loop start end l ≡ ok (ranged start end l)
  unfolding in_height_loop
  in_height_loop-ranged start end [] p a = refl
  in_height_loop-ranged start end (x ∷ l) p a =
      ground
        (arith, in_height_loop-ranged start end l p.1 a.1, ranged_above start end (height_of x) l)

  -- On a cache whose elements have tipsets, with heights that fall from front to back,
  -- `FindTipset_in_height` returns exactly the elements with a height from `start` to `end`, lowest
  -- first, although it stops at the first element above `end`.
  pub find_tipset_in_height-ranged :
      (fsc : FsTipsetCache T) (start end : ℕ)
      → All IsPresent fsc.list
      → IsDescending fsc.list
      → find_tipset_in_height fsc start end ≡ ok (ranged start end (reverse fsc.list))
  unfolding find_tipset_in_height
  find_tipset_in_height-ranged fsc start end p d =
      in_height_loop-ranged start end (reverse fsc.list) (All-reverse IsPresent fsc.list p)
        (reverse-IsAscending fsc.list d)

  height_loop-head? :
      (h : ℕ) (l : List (TipsetBlockMessages T))
      → All IsPresent l
      → height_loop h l ≡ ok (head? (ranged h h l))
  unfolding height_loop
  height_loop-head? h [] p = refl
  height_loop-head? h (x ∷ l) p = ground (arith, height_loop-head? h l p.1)

  -- On such a cache `FindTipset_height` returns the first element of what `FindTipset_in_height`
  -- returns for the range of that one height, and nil exactly if that is empty.
  pub find_tipset_height-in_height :
      (fsc : FsTipsetCache T) (height : ℕ)
      → All IsPresent fsc.list
      → IsDescending fsc.list
      → find_tipset_height fsc height
        ≡ (do found ← find_tipset_in_height fsc height height; ok (head? found))
  unfolding find_tipset_height
  find_tipset_height-in_height fsc height p d =
      rw (find_tipset_in_height-ranged fsc height height p d)
        (height_loop-head? height (reverse fsc.list) (All-reverse IsPresent fsc.list p))

  count_loop-add :
      (a b c : ℕ) (l : List (TipsetBlockMessages T))
      → a ≤ b
      → b ≤ c
      → All IsPresent l
      → (n : ℕ) × (m : ℕ) × (count_loop a b l ≡ ok n)
        × (count_loop b c l ≡ ok m)
        × (count_loop a c l ≡ ok (n + m))
  unfolding count_loop
  count_loop-add a b c [] h k p = (0, 0, refl, refl, refl)
  count_loop-add a b c (x ∷ l) h k p = elim (Option-cases x.tipset) [
    | inl missing ↦ absurd (ground arith)
    | inr (t, e) ↦
        let at = ops.min_timestamp t in
        let (n, m, first, second, both) = count_loop-add a b c l h k p.1 in
        (
          if leb a at && ltb at b then suc n else n,
          if leb b at && ltb at c then suc m else m,
          rw (e, first),
          rw (e, second),
          rw (e, both) (ground arith),
        )
  ]

  -- `TipsetCountInTime` counts half-open intervals: for a ≤ b ≤ c the counts from a to b and from b to
  -- c add up to the count from a to c, and no call fails while every element has a tipset.
  pub tipset_count_in_time-add :
      (fsc : FsTipsetCache T) (a b c : ℕ)
      → a ≤ b
      → b ≤ c
      → All IsPresent fsc.list
      → (n : ℕ) × (m : ℕ) × (tipset_count_in_time fsc a b ≡ ok n)
        × (tipset_count_in_time fsc b c ≡ ok m)
        × (tipset_count_in_time fsc a c ≡ ok (n + m))
  unfolding tipset_count_in_time
  tipset_count_in_time-add fsc a b c h k p = count_loop-add a b c fsc.list h k p
