-- ===== src/SyncedPath/Walk.antt =====
-- The two ways in which the front path grows: down to a parent, and up to a child.
use filscan_backend.Prelude.{
  ◌≡◌, refl, ap, Bool, true, false, String, ◌⊎◌, inl, inr, ◌↔◌, string_eq, List, [], ◌∷◌, arith,
  if◌then◌else◌, ==_iff, Bool-cases,
}
use filscan_backend.Chain.{TipsetOps}
use filscan_backend.SyncedPath.{
  FsSyncedTipset, FsSyncedTipsetPath, insert_tail_parent, insert_head_child,
}

module _ {T : Type 0} ⦃ops : TipsetOps T⦄ where
  abbrev pub synced : T → FsSyncedTipset
  synced t = record { key = ops.key t; parent_key = ops.parents t; height = ops.height t }

  -- One call after the other, as long as they return true.
  pub walk_down : List FsSyncedTipsetPath → List T → List FsSyncedTipsetPath × Bool
  walk_down l [] = (l, true)
  walk_down l (t ∷ ts) =
      let (l', inserted) = insert_tail_parent l t in
      let rest = walk_down l' ts in if inserted then rest else (l', false)

  pub walk_up : List FsSyncedTipsetPath → List T → List FsSyncedTipsetPath × Bool
  walk_up l [] = (l, true)
  walk_up l (t ∷ ts) =
      let (l', inserted) = insert_head_child l t in
      let rest = walk_up l' ts in if inserted then rest else (l', false)

  -- From a key down, each tipset is the parent of the one before it.
  abbrev pub IsDescent : String → List T → Type 0
  IsDescent parent_key [] = Unit {0}
  IsDescent parent_key (t ∷ ts) = (parent_key ≡ ops.key t) × IsDescent (ops.parents t) ts

  -- From a key up, each tipset is a child of the one before it.
  abbrev pub IsAscent : String → List T → Type 0
  IsAscent key [] = Unit {0}
  IsAscent key (t ∷ ts) = (key ≡ ops.parents t) × IsAscent (ops.key t) ts

  abbrev pub last_synced : FsSyncedTipset → List T → FsSyncedTipset
  last_synced s [] = s
  last_synced s (t ∷ ts) = last_synced (synced t) ts

  walk_down-IsDescent :
      (front : FsSyncedTipsetPath) (l : List FsSyncedTipsetPath) (ts : List T)
      → ((walk_down (front ∷ l) ts).1 ≡ true) ↔ IsDescent front.tail.parent_key ts
  unfolding walk_down insert_tail_parent
  walk_down-IsDescent front l [] = (λ _. tt, λ _. refl)
  walk_down-IsDescent front l (t ∷ ts) =
      let (there, back) = walk_down-IsDescent (record front { tail = synced t }) l ts in
      let same = ==_iff front.tail.parent_key (ops.key t) in
      (λ h. ground (arith, same, there), λ h. ground (arith, same, back))

  walk_down-last_synced :
      (front : FsSyncedTipsetPath) (l : List FsSyncedTipsetPath) (ts : List T)
      → IsDescent front.tail.parent_key ts
      → walk_down (front ∷ l) ts ≡ (record front { tail = last_synced front.tail ts } ∷ l, true)
  unfolding walk_down insert_tail_parent
  walk_down-last_synced front l [] h = refl
  walk_down-last_synced front l (t ∷ ts) h = ground (
    arith,
    ==_iff front.tail.parent_key (ops.key t),
    walk_down-last_synced (record front { tail = synced t }) l ts,
  )

  walk_down_lem :
      (front : FsSyncedTipsetPath) (l : List FsSyncedTipsetPath) (ts : List T)
      → (((walk_down (front ∷ l) ts).1 ≡ true) ↔ IsDescent front.tail.parent_key ts)
        × (((walk_down (front ∷ l) ts).1 ≡ false)
            ⊎ ((walk_down (front ∷ l) ts).0
                ≡ record front { tail = last_synced front.tail ts } ∷ l))
  walk_down_lem front l ts =
      let taken = walk_down-IsDescent front l ts in
      (
        taken,
        elim (Bool-cases (walk_down (front ∷ l) ts).1) [
          | inl all ↦ inr (ap (λ r. r.0) (walk_down-last_synced front l ts (taken.0 all)))
          | inr stopped ↦ inl stopped
        ],
      )

  walk_up-IsAscent :
      (front : FsSyncedTipsetPath) (l : List FsSyncedTipsetPath) (ts : List T)
      → ((walk_up (front ∷ l) ts).1 ≡ true) ↔ IsAscent front.head.key ts
  unfolding walk_up insert_head_child
  walk_up-IsAscent front l [] = (λ _. tt, λ _. refl)
  walk_up-IsAscent front l (t ∷ ts) =
      let (there, back) = walk_up-IsAscent (record front { head = synced t }) l ts in
      let same = ==_iff front.head.key (ops.parents t) in
      (λ h. ground (arith, same, there), λ h. ground (arith, same, back))

  walk_up-last_synced :
      (front : FsSyncedTipsetPath) (l : List FsSyncedTipsetPath) (ts : List T)
      → IsAscent front.head.key ts
      → walk_up (front ∷ l) ts ≡ (record front { head = last_synced front.head ts } ∷ l, true)
  unfolding walk_up insert_head_child
  walk_up-last_synced front l [] h = refl
  walk_up-last_synced front l (t ∷ ts) h = ground (
    arith,
    ==_iff front.head.key (ops.parents t),
    walk_up-last_synced (record front { head = synced t }) l ts,
  )

  walk_up_lem :
      (front : FsSyncedTipsetPath) (l : List FsSyncedTipsetPath) (ts : List T)
      → (((walk_up (front ∷ l) ts).1 ≡ true) ↔ IsAscent front.head.key ts)
        × (((walk_up (front ∷ l) ts).1 ≡ false)
            ⊎ ((walk_up (front ∷ l) ts).0 ≡ record front { head = last_synced front.head ts } ∷ l))
  walk_up_lem front l ts =
      let taken = walk_up-IsAscent front l ts in
      (
        taken,
        elim (Bool-cases (walk_up (front ∷ l) ts).1) [
          | inl all ↦ inr (ap (λ r. r.0) (walk_up-last_synced front l ts (taken.0 all)))
          | inr stopped ↦ inl stopped
        ],
      )

  -- `insert_tail_parent` takes all of a run of tipsets exactly if each is the parent of the one before,
  -- from the tail of the front path on. It then makes the last one the tail, and changes nothing else:
  -- not the head, not the selector under which the path is stored, not the other paths. In the same way
  -- `insert_head_child` takes a run upwards from the head.
  pub walks_lem :
      (front : FsSyncedTipsetPath) (l : List FsSyncedTipsetPath) (down up : List T)
      → (((walk_down (front ∷ l) down).1 ≡ true) ↔ IsDescent front.tail.parent_key down)
        × (((walk_down (front ∷ l) down).1 ≡ false)
            ⊎ ((walk_down (front ∷ l) down).0
                ≡ record front { tail = last_synced front.tail down } ∷ l))
        × (((walk_up (front ∷ l) up).1 ≡ true) ↔ IsAscent front.head.key up)
        × (((walk_up (front ∷ l) up).1 ≡ false)
            ⊎ ((walk_up (front ∷ l) up).0 ≡ record front { head = last_synced front.head up } ∷ l))
  walks_lem front l down up =
      let (d, d') = walk_down_lem front l down in
      let (u, u') = walk_up_lem front l up in (d, d', u, u')
