-- ===== src/Queue/Queries/Heights.antt =====
-- The lookups by height rely on the order of the queue.
use filscan_backend.Prelude.{
  ℕ, ◌≡◌, refl, sym, ap, Bool, false, ◌&&◌, List, [], ◌∷◌, All, filter, find?, ltb, leb, ◌==◌,
  nat_eq, if◌then◌else◌, Bool-cases, arith, inl, inr,
}
use filscan_backend.Chain.{TipsetOps, Element}
use filscan_backend.Queue.{SliceEntry, height_of, outside}
use filscan_backend.Queue.Order.{
  Above, Above-mono, IsAscending, outside-lem, filter-none, find?-none,
}
use filscan_backend.Queue.Queries.{
  one_height_loop, tipset_by_one_height, by_height_loop, tipset_by_height,
}

module _ {T : Type 0} ⦃ops : TipsetOps T⦄ where
  abbrev pub within : ℕ → ℕ → Element T → Bool
  within start_height end_height x = leb start_height (height_of x) && leb (height_of x) end_height

  Above-within :
      (start_height end_height : ℕ) (l : List (Element T))
      → Above end_height l
      → All (λ x. within start_height end_height x ≡ false) l
  Above-within start_height end_height [] a = tt
  Above-within start_height end_height (x ∷ l) a =
      (ground arith, Above-within start_height end_height l a.1)

  by_height_loop-filter :
      (start_height end_height : ℕ) (l : List (Element T))
      → IsAscending l
      → by_height_loop start_height end_height l ≡ filter (within start_height end_height) l
  unfolding by_height_loop
  by_height_loop-filter start_height end_height [] a = refl
  by_height_loop-filter start_height end_height (x ∷ l) a =
      let ih = by_height_loop-filter start_height end_height l a.1 in
      elim (Bool-cases (ltb end_height (height_of x))) [
        | inl past ↦ rw past (
            sym (
              filter-none (within start_height end_height) (x ∷ l) (
                ground arith,
                Above-within start_height end_height l
                    (Above-mono (height_of x) end_height l (ground arith) a.0),
              )))
        | inr reached ↦
            rw reached (ap (λ r. if within start_height end_height x then x ∷ r else r) ih)
      ]

  one_height_loop-find? :
      (h : ℕ) (l : List (Element T)) → one_height_loop h l ≡ find? (λ x. height_of x == h) l
  unfolding one_height_loop
  one_height_loop-find? h [] = refl
  one_height_loop-find? h (x ∷ l) = ground (arith, one_height_loop-find? h l)

  -- In a queue of ascending heights `TipsetByHeight`, which stops behind the range, gives all elements
  -- whose height is in the range, and `TipsetByOneHeight`, which does not search outside of the heights
  -- of the first and the last element, finds the element with the height, if there is one.
  pub tipset_by_height-filter :
      (entry : SliceEntry T)
      → IsAscending entry.element
      → ((start_height end_height : ℕ)
          → tipset_by_height entry start_height end_height
            ≡ filter (within start_height end_height) entry.element)
        × ((h : ℕ) → tipset_by_one_height entry h ≡ find? (λ x. height_of x == h) entry.element)
  unfolding tipset_by_height tipset_by_one_height
  tipset_by_height-filter entry a = (
    λ s e. by_height_loop-filter s e entry.element a,
    λ h. elim (Bool-cases (outside h entry.element)) [
      | inl out ↦ rw out (
          sym
            (find?-none (λ x. height_of x == h) entry.element (outside-lem h entry.element a out)))
      | inr inside ↦ rw inside (one_height_loop-find? h entry.element)
    ],
  )
