-- ===== src/Queue/Push.antt =====
-- `UpdatePush` of a tipset with a new height.
use filscan_backend.Prelude.{
  ℕ, zero, suc, ◌+◌, ◌-◌, ◌^◌, ◌<◌, ◌≤◌, ◌≡◌, ◌≢◌, refl, sym, ap, ◌∙◌, Bool, true, false, ◌&&◌, not,
  List, [], ◌∷◌, ◌++◌, All, filter, ltb, leb, ◌==◌, nat_eq, if◌then◌else◌, if_true, if_false,
  Bool-cases, arith, inl, inr, Result, ok, ◌>>=◌,
}
use mathlib.Core.List.{Perm}
use filscan_backend.Prelude.Int.{pos, negsuc}
use filscan_backend.Chain.{TipsetOps, Element}
use filscan_backend.Queue.{
  SliceEntry, sub_uint64, height_of, have_loop, have, del_between, del_tipset_by_height,
  update_push,
}
use filscan_backend.Queue.Order.{Above, IsAscending, filter-All}
use filscan_backend.Queue.Remove.{del_tipset_by_height-filter}

module _ {ℓ} {A : Type ℓ} where
  filter-filter : (p q : A → Bool) (l : List A) → filter p (filter q l) ≡ filter (λ x. p x && q x) l
  filter-filter p q [] = refl
  filter-filter p q (x ∷ l) = go (p x) (q x) refl refl (filter-filter p q l)
    where
      go :
          (b c : Bool)
          → p x ≡ b
          → q x ≡ c
          → filter p (filter q l) ≡ filter (λ y. p y && q y) l
          → filter p (if c then x ∷ filter q l else filter q l)
            ≡ (if b && c then x ∷ filter (λ y. p y && q y) l else filter (λ y. p y && q y) l)
      go true true e f ih = if_true _ _ _ e ∙ ap (◌∷◌ x) ih
      go true false e f ih = ih
      go false true e f ih = if_false _ _ _ e ∙ ih
      go false false e f ih = ih

  filter-ext : (p q : A → Bool) → ((x : A) → p x ≡ q x) → (l : List A) → filter p l ≡ filter q l
  filter-ext p q h [] = refl
  filter-ext p q h (x ∷ l) = rw (h x, filter-ext p q h l) refl

sub_uint64-lem : (a b : ℕ) → b ≤ a → a < 2 ^ 64 → sub_uint64 a b ≡ a - b
sub_uint64-lem a b h k = omega arith

module _ {T : Type 0} ⦃ops : TipsetOps T⦄ where
  filter-Above :
      (h : ℕ) (p : Element T → Bool) (l : List (Element T)) → Above h l → Above h (filter p l)
  filter-Above h p [] a = tt
  filter-Above h p (x ∷ l) a = ground (arith, filter-Above h p l a.1)

  filter-IsAscending :
      (p : Element T → Bool) (l : List (Element T)) → IsAscending l → IsAscending (filter p l)
  filter-IsAscending p [] a = tt
  filter-IsAscending p (x ∷ l) a =
      ground (arith, filter-IsAscending p l a.1, filter-Above (height_of x) p l a.0)

  -- The height is not between `parent_height` and `top`.
  abbrev kept : ℕ → ℕ → Element T → Bool
  kept parent_height top x = not (ltb parent_height (height_of x) && leb (height_of x) top)

  kept-top :
      (parent_height : ℕ) (l : List (Element T))
      → All (λ x. kept parent_height parent_height x ≡ true) l
  kept-top parent_height [] = tt
  kept-top parent_height (x ∷ l) = (ground arith, kept-top parent_height l)

  del_between-filter :
      (fuel : ℕ) (entry : SliceEntry T) (height parent_height i : ℕ)
      → height < 2 ^ 64
      → parent_height + i ≤ height
      → height < fuel + parent_height + i
      → IsAscending entry.element
      → del_between fuel entry height parent_height i
        ≡ ok (record { element = filter (kept parent_height (height - i)) entry.element })
  unfolding del_between
  del_between-filter zero entry height parent_height i w h f a = ground arith
  del_between-filter (suc fuel) entry height parent_height i w h f a =
      ap round (sub_uint64-lem height i (omega (arith, h)) w)
      ∙ elim (Bool-cases (ltb parent_height (height - i))) [
        | inl more ↦
            let next = filter (λ x. not (height_of x == (height - i))) entry.element in
            if_true _ _ _ more
            ∙ ap onward (del_tipset_by_height-filter entry (height - i) a)
            ∙ del_between-filter fuel (record { element = next }) height parent_height (suc i) w
                (ground arith) (ground arith)
                (filter-IsAscending (λ x. not (height_of x == (height - i))) entry.element a)
            ∙ ap (λ l. ok (record { element = l }))
                (filter-filter (kept parent_height (height - suc i))
                    (λ x. not (height_of x == (height - i))) entry.element
                  ∙ filter-ext _ (kept parent_height (height - i)) (λ x. ground arith)
                      entry.element)
        | inr last ↦
            let reached : height - i ≡ parent_height = ground arith in
            if_false _ _ _ last
            ∙ ap (λ l. ok (record { element = l }))
                (sym (
                    filter-All (kept parent_height parent_height) entry.element
                      (kept-top parent_height entry.element))
                  ∙ ap (λ top. filter (kept parent_height top) entry.element) (sym reached))
      ]
    where
      onward : Result (SliceEntry T) → Result (SliceEntry T)
      onward r = r >>= λ entry'. del_between fuel entry' height parent_height (suc i)

      round : ℕ → Result (SliceEntry T)
      round cur =
          if ltb parent_height cur then onward (del_tipset_by_height entry cur) else ok entry

  -- No two elements have the same height.
  abbrev pub IsDistinct : List (Element T) → Type 0
  IsDistinct [] = Unit {0}
  IsDistinct (x ∷ l) = All (λ y. height_of y ≢ height_of x) l × IsDistinct l

  -- What `sort.Slice` promises of elements with distinct heights.
  abbrev pub SortsByHeight : (List (Element T) → List (Element T)) → Type 0
  SortsByHeight sort_slice =
      (l : List (Element T)) → IsDistinct l → IsAscending (sort_slice l) × Perm (sort_slice l) l

  have_loop-none :
      (h key : ℕ) (l : List (Element T))
      → have_loop h key l ≡ negsuc 0
      → All (λ x. height_of x ≢ h) l
  unfolding have_loop
  have_loop-none h key [] e = tt
  have_loop-none h key (x ∷ l) e = elim (Bool-cases (height_of x == h)) [
    | inl same ↦
        (let clash : pos key ≡ negsuc 0 =
            sym (if_true (height_of x == h) (pos key) (have_loop h (suc key) l) same) ∙ e in
          cc)
    | inr other ↦ (ground arith, have_loop-none h (suc key) l (sym (if_false _ _ _ other) ∙ e))
  ]

  IsDistinct-append :
      (l : List (Element T)) (e : Element T)
      → IsAscending l
      → All (λ x. height_of x ≢ height_of e) l
      → IsDistinct (l ++ e ∷ [])
  IsDistinct-append [] e a n = (tt, tt)
  IsDistinct-append (x ∷ l) e a n = (different l a.0, IsDistinct-append l e a.1 n.1)
    where
      different :
          (l : List (Element T))
          → Above (height_of x) l
          → All (λ y. height_of y ≢ height_of x) (l ++ e ∷ [])
      different [] b = (ground (arith, n.0), tt)
      different (y ∷ l) b = (omega (arith, b.0), different l b.1)

  -- `UpdatePush` of an element with a new height, below 2^64 and above the height of its parent, into a
  -- queue of ascending heights: the loop ends, with as much fuel as the two heights are apart, and the
  -- queue has the old elements and the new one in ascending order, but for those between the parent and
  -- the new one, which an abandoned branch left.
  pub update_push-fresh :
      (sort_slice : List (Element T) → List (Element T))
      → SortsByHeight sort_slice
      → (fuel : ℕ) (entry : SliceEntry T) (e : Element T) (parent_height : ℕ)
      → IsAscending entry.element
      → have entry e ≡ negsuc 0
      → parent_height < height_of e
      → height_of e < 2 ^ 64
      → height_of e ≤ fuel + parent_height
      → (sorted : List (Element T)) × Perm sorted (entry.element ++ e ∷ [])
        × (update_push sort_slice fuel entry e parent_height
            ≡ ok (
              true,
              record {
                element =
                    filter
                      (λ x.
                        not (ltb parent_height (height_of x) && ltb (height_of x) (height_of e)))
                      sorted;
              },
            ))
        × IsAscending (
            filter
              (λ x. not (ltb parent_height (height_of x) && ltb (height_of x) (height_of e)))
              sorted)
  unfolding update_push have
  update_push-fresh sort_slice law fuel entry e parent_height a new h w f =
      let (ascending, same) =
        law (entry.element ++ e ∷ []) (
          IsDistinct-append entry.element e a (have_loop-none (height_of e) 0 entry.element new)) in
      let sorted = sort_slice (entry.element ++ e ∷ []) in
      let deleted =
        del_between-filter fuel (record { element = sorted }) (height_of e) parent_height 1 w
          (omega (arith, h)) (omega (arith, f)) ascending in
      let absent : have_loop (height_of e) 0 entry.element ≡ negsuc 0 = new in
      (
        sorted,
        same,
        rw (absent, update_push)
            (rw deleted (
              ap (λ l. ok (true, record { element = l }))
                (filter-ext (kept parent_height (height_of e - 1)) _ (λ x. ground arith) sorted))),
        filter-IsAscending
            (λ x. not (ltb parent_height (height_of x) && ltb (height_of x) (height_of e))) sorted
            ascending,
      )
