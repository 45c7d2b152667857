-- ===== src/Tests/Sort.antt =====
-- An insertion sort, for `sort.Slice`.
use filscan_backend.Prelude.{
  ◌<◌, ◌≢◌, Bool, true, false, List, [], ◌∷◌, All, ltb, if◌then◌else◌, Bool-cases, inl, inr, arith,
}
use mathlib.Core.List.{Perm}
use mathlib.Core.List.Perm
use filscan_backend.Chain.{TipsetOps, Element}
use filscan_backend.Queue.{height_of}
use filscan_backend.Queue.Order.{Above-mono, IsAscending}
use filscan_backend.Queue.Push.{IsDistinct, SortsByHeight}

module _ {T : Type 0} ⦃ops : TipsetOps T⦄ where
  abbrev pub insert : Element T → List (Element T) → List (Element T)
  insert e [] = e ∷ []
  insert e (x ∷ l) = if ltb (height_of e) (height_of x) then e ∷ x ∷ l else x ∷ insert e l

  abbrev pub sort : List (Element T) → List (Element T)
  sort [] = []
  sort (x ∷ l) = insert x (sort l)

  insert-Perm : (e : Element T) (l : List (Element T)) → Perm (insert e l) (e ∷ l)
  insert-Perm e [] = Perm.refl (e ∷ [])
  insert-Perm e (x ∷ l) = go (ltb (height_of e) (height_of x)) (insert-Perm e l)
    where
      go :
          (b : Bool)
          → Perm (insert e l) (e ∷ l)
          → Perm (if b then e ∷ x ∷ l else x ∷ insert e l) (e ∷ x ∷ l)
      go true ih = Perm.refl (e ∷ x ∷ l)
      go false ih = Perm.trans (Perm.cons x ih) (Perm.swap e x l)

  pub sort-Perm : (l : List (Element T)) → Perm (sort l) l
  sort-Perm [] = Perm.refl []
  sort-Perm (x ∷ l) = Perm.trans (insert-Perm x (sort l)) (Perm.cons x (sort-Perm l))

  insert-All :
      (P : Element T → Type 0) (e : Element T) (l : List (Element T))
      → P e
      → All P l
      → All P (insert e l)
  insert-All P e [] p h = (p, tt)
  insert-All P e (x ∷ l) p h = go (ltb (height_of e) (height_of x)) (insert-All P e l p h.1)
    where
      go : (b : Bool) → All P (insert e l) → All P (if b then e ∷ x ∷ l else x ∷ insert e l)
      go true ih = (p, h)
      go false ih = (h.0, ih)

  sort-All : (P : Element T → Type 0) (l : List (Element T)) → All P l → All P (sort l)
  sort-All P [] h = tt
  sort-All P (x ∷ l) h = insert-All P x (sort l) h.0 (sort-All P l h.1)

  insert-IsAscending :
      (e : Element T) (l : List (Element T))
      → IsAscending l
      → All (λ y. height_of y ≢ height_of e) l
      → IsAscending (insert e l)
  insert-IsAscending e [] a n = (tt, tt)
  insert-IsAscending e (x ∷ l) a n = elim (Bool-cases (ltb (height_of e) (height_of x))) [
    | inl low ↦
        rw low ((ground arith, Above-mono (height_of x) (height_of e) l (ground arith) a.0), a)
    | inr high ↦ rw high (
      insert-All (λ y. height_of x < height_of y) e l (ground (arith, n.0)) a.0,
      insert-IsAscending e l a.1 n.1,
    )
  ]

  pub sort-SortsByHeight : SortsByHeight sort
  sort-SortsByHeight l d = (ascending l d, sort-Perm l)
    where
      ascending : (l : List (Element T)) → IsDistinct l → IsAscending (sort l)
      ascending [] d = tt
      ascending (x ∷ l) d =
          insert-IsAscending x (sort l) (ascending l d.1)
            (sort-All (λ y. height_of y ≢ height_of x) l d.0)
