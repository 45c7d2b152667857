-- ===== src/TipsetCache/Fork.antt =====
-- What `push_front` leaves of a forked chain, and when its loop ends.
use filscan_backend.Prelude.{
  ℕ, zero, suc, ◌<◌, ◌≡◌, refl, ap, Bool, Bool-cases, inl, inr, ltb, true, false, Option, ◌++◌,
  none, some, List, [], ◌∷◌, length, ◌==◌, string_eq, is_some, drop_until, All, ok, fail,
  out_of_fuel, arith,
}
use mathlib.Core.List.{append-nil}
use filscan_backend.Chain.{TipsetOps}
use filscan_backend.BlockMessage.{TipsetBlockMessages}
use filscan_backend.TipsetCache.{
  FsTipsetCache, remove_back, evict, front_equals, unfork, push_front,
}

abbrev pub IsPresent : {T : Type 0} → TipsetBlockMessages T → Type 0
IsPresent x = is_some x.tipset ≡ true

module _ {T : Type 0} ⦃ops : TipsetOps T⦄ where
  -- The test at which the loop stops.
  abbrev pub is_parent : T → TipsetBlockMessages T → Bool
  is_parent t x = elim x.tipset [ none ↦ false | some f ↦ ops.key f == ops.parents t ]

  pub unfork-drop_until :
      (fuel : ℕ) (t : T) (l : List (TipsetBlockMessages T))
      → length l < fuel
      → All IsPresent l
      → unfork fuel t l ≡ ok (drop_until (is_parent t) l)
  unfolding unfork
  unfork-drop_until zero t l h p = absurd (omega arith)
  unfork-drop_until (suc fuel) t [] h p = refl
  unfork-drop_until (suc fuel) t (x ∷ l) h p = ground (arith, unfork-drop_until fuel t l)

  pub unfork_nil :
      (fuel : ℕ) (t : T) (x : TipsetBlockMessages T) (l : List (TipsetBlockMessages T))
      → x.tipset ≡ none
      → unfork fuel t (x ∷ l) ≡ fail out_of_fuel
  unfolding unfork
  unfork_nil zero t x l e = refl
  unfork_nil (suc fuel) t x l e = rw e (unfork_nil fuel t x l e)

  pub push_front_lem :
      (fuel : ℕ) (fsc : FsTipsetCache T) (x : TipsetBlockMessages T) (t : T)
      → x.tipset ≡ some t
      → length fsc.list < fuel
      → All IsPresent fsc.list
      → front_equals fsc.list x ≡ false
      → push_front fuel fsc (some x) ≡ ok (evict fsc (x ∷ drop_until (is_parent t) fsc.list))
  unfolding push_front
  push_front_lem fuel fsc x t e h p fresh = ground (arith, unfork-drop_until fuel t fsc.list)

  remove_back-lem :
      (x : TipsetBlockMessages T) (l : List (TipsetBlockMessages T))
      → (remove_back x l).0 ++ (remove_back x l).1 ∷ [] ≡ x ∷ l
  unfolding remove_back
  remove_back-lem x [] = refl
  remove_back-lem x (y ∷ l) = ap (◌∷◌ x) (remove_back-lem y l)

  abbrev pub as_list : Option (TipsetBlockMessages T) → List (TipsetBlockMessages T)
  as_list none = []
  as_list (some x) = x ∷ []

  -- What evicting leaves and returns.
  abbrev pub Evicts :
      FsTipsetCache T
      → List (TipsetBlockMessages T)
      → FsTipsetCache T × Option (TipsetBlockMessages T)
      → Type 0
  Evicts fsc l r =
      (r.0.max_size ≡ fsc.max_size)
      × (r.0.list ++ as_list r.1 ≡ l)
      × (is_some r.1 ≡ ltb fsc.max_size (length l))

  evict-Evicts :
      (fsc : FsTipsetCache T) (x : TipsetBlockMessages T) (l : List (TipsetBlockMessages T))
      → Evicts fsc (x ∷ l) (evict fsc (x ∷ l))
  unfolding evict
  evict-Evicts fsc x l = elim (Bool-cases (ltb fsc.max_size (length (x ∷ l)))) [
    | inl over ↦ rw over (refl, remove_back-lem x l, refl)
    | inr fits ↦ rw fits (refl, append-nil (x ∷ l), refl)
  ]

  -- On a cache whose elements all carry a tipset, a push of a new tipset `t` ends, with any fuel above the
  -- number of elements. The elements in front of the parent of `t` are dropped (all of them, if it is not
  -- there), and the new element is in front. What is left and what is returned together are this list in
  -- its order; the last element is returned exactly if they are more than the cache takes.
  pub push_front-Evicts :
      (fuel : ℕ) (fsc : FsTipsetCache T) (x : TipsetBlockMessages T) (t : T)
      → x.tipset ≡ some t
      → length fsc.list < fuel
      → All IsPresent fsc.list
      → front_equals fsc.list x ≡ false
      → (r : FsTipsetCache T × Option (TipsetBlockMessages T)) × (push_front fuel fsc (some x)
          ≡ ok r)
        × Evicts fsc (x ∷ drop_until (is_parent t) fsc.list) r
  push_front-Evicts fuel fsc x t e h p fresh = (
    evict fsc (x ∷ drop_until (is_parent t) fsc.list),
    push_front_lem fuel fsc x t e h p fresh,
    evict-Evicts fsc x (drop_until (is_parent t) fsc.list),
  )

  -- With an element without a tipset in front, the loop never ends: no fuel is enough.
  pub push_front_diverges :
      (fuel : ℕ) (fsc : FsTipsetCache T) (x y : TipsetBlockMessages T) (t : T)
      (l : List (TipsetBlockMessages T))
      → x.tipset ≡ some t
      → fsc.list ≡ y ∷ l
      → y.tipset ≡ none
      → front_equals fsc.list x ≡ false
      → push_front fuel fsc (some x) ≡ fail out_of_fuel
  unfolding push_front
  push_front_diverges fuel fsc x y t l e f g fresh = ground (arith, unfork_nil fuel t y l)
