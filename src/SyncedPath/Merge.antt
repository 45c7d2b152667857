-- ===== src/SyncedPath/Merge.antt =====
-- When two stored paths are merged, and what the merged path covers.
use filscan_backend.Prelude.{ℕ, ◌<◌, ◌≤◌, ◌≡◌, true, ◌⊎◌, inl, inr, string_eq, arith, min}
use Prim.Native.Nat.{max}
use native.Mathlib.Decide.{dec_le}
use filscan_backend.SyncedPath.{FsSyncedTipsetPath, try_merge_with}

-- The tail of a path is not above its head.
abbrev pub IsPath : FsSyncedTipsetPath → Type 0
IsPath p = p.tail.height ≤ p.head.height

abbrev pub Covers : FsSyncedTipsetPath → ℕ → Type 0
Covers p h = (p.tail.height ≤ h) × (h ≤ p.head.height)

-- The one path lies within the other, and ends below its head and above its tail.
abbrev pub IsInside : FsSyncedTipsetPath → FsSyncedTipsetPath → Type 0
IsInside p q = (p.head.height < q.head.height) × (q.tail.height < p.tail.height)

not_inside :
    (p q : FsSyncedTipsetPath)
    → ¬ IsInside p q
    → (q.head.height ≤ p.head.height) ⊎ (p.tail.height ≤ q.tail.height)
not_inside p q h = elim (dec_le q.head.height p.head.height) [
  | yes above ↦ inl above
  | no below ↦ elim (dec_le p.tail.height q.tail.height) [
    | yes under ↦ inr under
    | no over ↦ absurd (h (omega arith, omega arith))
  ]
]

module _ (p q : FsSyncedTipsetPath) where
  -- Which of two paths is asked makes no difference to whether they merge; a path that is not merged
  -- is not changed.
  pub try_merge_with_comm :
      ((try_merge_with p q).1 ≡ (try_merge_with q p).1)
      × (((try_merge_with p q).1 ≡ true) ⊎ ((try_merge_with p q).0 ≡ p))
  unfolding try_merge_with
  try_merge_with_comm = ground arith

  -- The ends of a merged path.
  pub try_merge_with-ends :
      IsPath p
      → IsPath q
      → ¬ IsInside p q
      → ¬ IsInside q p
      → (try_merge_with p q).1 ≡ true
      → ((try_merge_with p q).0.head.height ≡ max p.head.height q.head.height)
        × ((try_merge_with p q).0.tail.height ≡ min p.tail.height q.tail.height)
  unfolding try_merge_with
  try_merge_with-ends a b c d e = ground (arith, not_inside p q c, not_inside q p d)

  -- Where neither path lies inside the other, a merge gives the path from the higher head to the lower
  -- tail, and this covers what either of the two covers.
  pub try_merge_with-Covers :
      (h : ℕ)
      → IsPath p
      → IsPath q
      → ¬ IsInside p q
      → ¬ IsInside q p
      → (try_merge_with p q).1 ≡ true
      → Covers p h ⊎ Covers q h
      → Covers (try_merge_with p q).0 h
        × ((try_merge_with p q).0.head.height ≡ max p.head.height q.head.height)
        × ((try_merge_with p q).0.tail.height ≡ min p.tail.height q.tail.height)
  try_merge_with-Covers h a b c d e k =
      let (head, tail) = try_merge_with-ends a b c d e in (omega (arith, head, tail, k), head, tail)

  -- A path inside the other is merged too, and cuts the other one: its tail becomes the tail of the
  -- result, so that heights which a path covered before are covered by none.
  pub try_merge_with_inside :
      IsPath q
      → IsInside q p
      → ((try_merge_with p q).1 ≡ true)
        × ((try_merge_with p q).0.tail ≡ q.tail)
        × Covers p p.tail.height
        × ¬ Covers (try_merge_with p q).0 p.tail.height
  unfolding try_merge_with
  try_merge_with_inside a b = ground arith
