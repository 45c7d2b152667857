-- ===== src/Queue/Known.antt =====
-- `UpdatePush` of a height that the queue has behind its first index.
use filscan_backend.Prelude.{
  ℕ, zero, suc, ◌+◌, ◌≡◌, refl, sym, ap, ◌∙◌, subst, Bool, true, false, ◌&&◌, ◌↔◌, List, [], ◌∷◌,
  length, get_elem?, some, All, ◌==◌, ==_iff, nat_eq, string_eq, if_true, if_false, Bool-cases, inl,
  inr, arith, ok,
}
use mathlib.Core.Option.{some-injective}
use filscan_backend.Prelude.Int.{pos}
use filscan_backend.Chain.{TipsetOps, BlockAndMsg, Element}
use filscan_backend.Queue.{
  SliceEntry, height_of, have_loop, have, same_as_all, all_same, set_at, update_push,
}
use filscan_backend.Queue.Order.{Above, IsAscending}
use filscan_backend.Queue.Header.{update_push-known}

apart : true ≡ false → ⊥
apart e = cc

pos-injective : (a b : ℕ) → pos a ≡ pos b → a ≡ b
pos-injective a b e = cc

same_as_all_iff :
    (b : BlockAndMsg) (olds : List BlockAndMsg)
    → (same_as_all b olds ≡ true) ↔ All (λ old. b.block.cid ≡ old.block.cid) olds
unfolding same_as_all
same_as_all_iff b [] = (λ e. tt, λ a. refl)
same_as_all_iff b (old ∷ olds) =
    let (there, back) = same_as_all_iff b olds in
    let same = ==_iff b.block.cid old.block.cid in
    (λ e. ground (arith, same, there), λ a. ground (arith, same, back))

-- Every block has the cid of every old block.
abbrev pub AllSame : List BlockAndMsg → List BlockAndMsg → Type 0
AllSame bs olds = All (λ b. All (λ old. b.block.cid ≡ old.block.cid) olds) bs

all_same_iff : (bs olds : List BlockAndMsg) → (all_same bs olds ≡ true) ↔ AllSame bs olds
unfolding all_same
all_same_iff [] olds = (λ e. tt, λ a. refl)
all_same_iff (b ∷ bs) olds =
    let (there, back) = all_same_iff bs olds in
    let same = same_as_all_iff b olds in
    (λ e. ground (arith, same, there), λ a. ground (arith, same, back))

same_blocks :
    (bs olds : List BlockAndMsg)
    → ((length olds == length bs && all_same bs olds) ≡ true)
      ↔ ((length olds ≡ length bs) × AllSame bs olds)
same_blocks bs olds =
    let (there, back) = all_same_iff bs olds in
    (λ e. ground (arith, there), λ q. ground (arith, back))

module _ {T : Type 0} ⦃ops : TipsetOps T⦄ where
  have_loop-lem :
      (h key k : ℕ) (l : List (Element T))
      → have_loop h key l ≡ pos k
      → (i : ℕ) × (x : Element T) × (k ≡ key + i) × (get_elem? l i ≡ some x) × (height_of x ≡ h)
  unfolding have_loop
  have_loop-lem h key k [] e = cc
  have_loop-lem h key k (x ∷ l) e = elim (Bool-cases (height_of x == h)) [
    | inl same ↦
        let at : pos key ≡ pos k =
          sym (if_true (height_of x == h) (pos key) (have_loop h (suc key) l) same) ∙ e in
        (0, x, omega (arith, pos-injective key k at), refl, ground arith)
    | inr other ↦
        let (i, y, at, got, high) =
          have_loop-lem h (suc key) k l
            (sym (if_false (height_of x == h) (pos key) (have_loop h (suc key) l) other) ∙ e) in
        (suc i, y, omega (arith, at), got, high)
  ]

  set_at-Above :
      (h i : ℕ) (l : List (Element T)) (x e : Element T)
      → get_elem? l i ≡ some x
      → height_of x ≡ height_of e
      → Above h l
      → Above h (set_at l i e)
  unfolding set_at
  set_at-Above h i [] x e got same a = tt
  set_at-Above h zero (y ∷ l) x e got same a =
      (omega (arith, a.0, same, ap height_of (some-injective y x got)), a.1)
  set_at-Above h (suc i) (y ∷ l) x e got same a = (a.0, set_at-Above h i l x e got same a.1)

  set_at-IsAscending :
      (i : ℕ) (l : List (Element T)) (x e : Element T)
      → get_elem? l i ≡ some x
      → height_of x ≡ height_of e
      → IsAscending l
      → IsAscending (set_at l i e) × (length (set_at l i e) ≡ length l)
  unfolding set_at
  set_at-IsAscending i [] x e got same a = (a, refl)
  set_at-IsAscending zero (y ∷ l) x e got same a =
      let high = ap height_of (some-injective y x got) ∙ same in
      ((subst (λ k. Above k l) high a.0, a.1), refl)
  set_at-IsAscending (suc i) (y ∷ l) x e got same a =
      let (ascending, size) = set_at-IsAscending i l x e got same a.1 in
      ((set_at-Above (height_of y) i l x e got same a.0, ascending), ap (λ k. suc k) size)

  -- `UpdatePush` of a height that a queue of ascending heights has, behind its first index: there is one
  -- old element of that height; the result is false exactly if the old and the new element have as many
  -- blocks and each block of the one has the cid of each block of the other; and whether the old one is
  -- replaced or not, the queue has ascending heights and as many elements as before.
  pub update_push-IsAscending :
      (sort_slice : List (Element T) → List (Element T)) (fuel : ℕ) (entry : SliceEntry T)
      (e : Element T) (parent_height index : ℕ)
      → IsAscending entry.element
      → have entry e ≡ pos (suc index)
      → (old : Element T) × (r : Bool × SliceEntry T) × (get_elem? entry.element (suc index)
          ≡ some old)
        × (height_of old ≡ height_of e)
        × (update_push sort_slice fuel entry e parent_height ≡ ok r)
        × ((r.0 ≡ false) ↔ ((length old.blocks ≡ length e.blocks) × AllSame e.blocks old.blocks))
        × IsAscending r.1.element
        × (length r.1.element ≡ length entry.element)
  unfolding have
  update_push-IsAscending sort_slice fuel entry e parent_height index a at =
      let (i, old, place, got, high) = have_loop-lem (height_of e) 0 (suc index) entry.element at in
      let found = ap (get_elem? entry.element) (omega (arith, place)) ∙ got in
      let (ascending, size) = set_at-IsAscending (suc index) entry.element old e found high a in
      let known = update_push-known sort_slice fuel entry e old parent_height index at found in
      let same = same_blocks e.blocks old.blocks in
      let replaced : SliceEntry T = record { element = set_at entry.element (suc index) e } in
      elim (Bool-cases (length old.blocks == length e.blocks && all_same e.blocks old.blocks)) [
        | inl equal ↦ (
          old,
          (false, entry),
          found,
          high,
          known ∙ ap ok (if_true _ (false, entry) (true, replaced) equal),
          (λ t. same.0 equal, λ q. refl),
          a,
          refl,
        )
        | inr other ↦ (
          old,
          (true, replaced),
          found,
          high,
          known ∙ ap ok (if_false _ (false, entry) (true, replaced) other),
          (λ t. absurd (apart t), λ q. sym (same.1 q) ∙ other),
          ascending,
          size,
        )
      ]
