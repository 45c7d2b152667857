-- ===== src/Queue/Order.antt =====
-- Queues in ascending height, and the test of a height that is outside of such a queue.
use filscan_backend.Prelude.{
  ℕ, ◌<◌, ◌≤◌, ◌≡◌, refl, Bool, true, false, none, List, [], ◌∷◌, All, filter, find?, ltb, ◌==◌,
  nat_eq, Bool-cases, arith, inl, inr,
}
use filscan_backend.Chain.{TipsetOps, Element}
use filscan_backend.Queue.{height_of, outside, last_below}

module _ {T : Type 0} ⦃ops : TipsetOps T⦄ where
  abbrev pub Above : ℕ → List (Element T) → Type 0
  Above h l = All (λ x. h < height_of x) l

  -- Strictly ascending heights.
  abbrev pub IsAscending : List (Element T) → Type 0
  IsAscending [] = Unit {0}
  IsAscending (x ∷ l) = Above (height_of x) l × IsAscending l

  pub Above-mono : (h k : ℕ) (l : List (Element T)) → k ≤ h → Above h l → Above k l
  Above-mono h k [] le a = tt
  Above-mono h k (x ∷ l) le a = (omega (arith, a.0), Above-mono h k l le a.1)

  pub last_below-lem :
      (h : ℕ) (x : Element T) (l : List (Element T))
      → IsAscending (x ∷ l)
      → last_below h x l ≡ true
      → All (λ y. height_of y < h) (x ∷ l)
  unfolding last_below
  last_below-lem h x [] a e = (ground arith, tt)
  last_below-lem h x (y ∷ l) a e =
      let below = last_below-lem h y l a.1 e in (omega (arith, a.0.0, below.0), below)

  -- No element of an ascending queue has a height that is outside.
  pub outside-lem :
      (h : ℕ) (l : List (Element T))
      → IsAscending l
      → outside h l ≡ true
      → All (λ y. (height_of y == h) ≡ false) l
  unfolding outside
  outside-lem h [] a e = tt
  outside-lem h (x ∷ l) a e = elim (Bool-cases (ltb h (height_of x))) [
    | inl low ↦ (ground arith, above h l (Above-mono (height_of x) h l (ground arith) a.0))
    | inr high ↦ below h (x ∷ l) (last_below-lem h x l a (ground arith))
  ]
    where
      above : (h : ℕ) (l : List (Element T)) → Above h l → All (λ y. (height_of y == h) ≡ false) l
      above h [] b = tt
      above h (y ∷ l) b = (ground arith, above h l b.1)

      below :
          (h : ℕ) (l : List (Element T))
          → All (λ y. height_of y < h) l
          → All (λ y. (height_of y == h) ≡ false) l
      below h [] b = tt
      below h (y ∷ l) b = (ground arith, below h l b.1)

module _ {ℓ} {A : Type ℓ} where
  pub filter-none : (p : A → Bool) (l : List A) → All (λ x. p x ≡ false) l → filter p l ≡ []
  filter-none p [] h = refl
  filter-none p (x ∷ l) h = ground (arith, filter-none p l h.1)

  pub filter-All : (p : A → Bool) (l : List A) → All (λ x. p x ≡ true) l → filter p l ≡ l
  filter-All p [] h = refl
  filter-All p (x ∷ l) h = ground (arith, filter-All p l h.1)

  pub find?-none : (p : A → Bool) (l : List A) → All (λ x. p x ≡ false) l → find? p l ≡ none
  find?-none p [] h = refl
  find?-none p (x ∷ l) h = ground (arith, find?-none p l h.1)
