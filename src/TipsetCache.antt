-- ===== src/TipsetCache.antt =====
-- filscaner/fs_tipset_cache.go: the cache of unconfirmed tipsets, newest at the front. Each method
-- runs under the mutex, so a call is one step; the two methods that change the list stand here.
pub mod Fork
pub mod Invariant
pub mod Queries
pub mod Paging
use filscan_backend.Prelude.{
  ℕ, zero, suc, ◌≡◌, Bool, true, false, ◌||◌, String, Option, none, some, List, [], ◌∷◌, length,
  ltb, leb, ◌==◌, nat_eq, string_eq, ◌++◌, if◌then◌else◌, Result, ok, fail, out_of_fuel, ◌>>=◌,
}
use filscan_backend.Chain.{TipsetOps}
use filscan_backend.BlockMessage.{TipsetBlockMessages, equals}

pub record FsTipsetCache (T : Type 0) : Type 0 where
  pub list : List (TipsetBlockMessages T)
  pub max_size : ℕ

module _ {ℓ} {A : Type ℓ} where
  -- `list.Remove(list.Back())`: the rest and the removed value.
  pub remove_back : A → List A → List A × A
  remove_back x [] = ([], x)
  remove_back x (y ∷ l) = let (rest, back) = remove_back y l in (x ∷ rest, back)

  unfoldable pub back? : List A → Option A
  back? [] = none
  back? (x ∷ []) = some x
  back? (x ∷ y ∷ l) = back? (y ∷ l)

module _ {T : Type 0} where
  unfoldable pub new_fs_cache : ℕ → FsTipsetCache T
  new_fs_cache max_size = record { list = []; max_size = max_size }

  unfoldable pub full : FsTipsetCache T → Bool
  full fsc = leb fsc.max_size (length fsc.list)

  unfoldable pub size : FsTipsetCache T → ℕ
  size fsc = length fsc.list

  pub evict :
      FsTipsetCache T
      → List (TipsetBlockMessages T)
      → FsTipsetCache T × Option (TipsetBlockMessages T)
  evict fsc [] = (record fsc { list = [] }, none)
  evict fsc (x ∷ l) =
      if ltb fsc.max_size (length (x ∷ l))
      then (let (rest, back) = remove_back x l in (record fsc { list = rest }, some back))
      else (record fsc { list = x ∷ l }, none)

module _ {T : Type 0} ⦃ops : TipsetOps T⦄ where
  pub back_equals : TipsetBlockMessages T → Option (TipsetBlockMessages T) → Bool
  back_equals x none = false
  back_equals x (some back) = equals x back

  -- A nil argument is `none`.
  unfoldable pub push_back : FsTipsetCache T → Option (TipsetBlockMessages T) → FsTipsetCache T
  unfolding back_equals
  push_back fsc none = fsc
  push_back fsc (some x) =
      if back_equals x (back? fsc.list) then fsc else record fsc { list = fsc.list ++ x ∷ [] }

  unfoldable pub front_equals : List (TipsetBlockMessages T) → TipsetBlockMessages T → Bool
  front_equals [] x = false
  front_equals (front ∷ l) x = equals front x

  -- The loop of `push_front`: elements are removed until the front is the parent. An element with a
  -- nil tipset is not removed, and the loop looks at it again.
  pub unfork : ℕ → T → List (TipsetBlockMessages T) → Result (List (TipsetBlockMessages T))
  unfork zero t l = fail out_of_fuel
  unfork (suc fuel) t [] = ok []
  unfork (suc fuel) t (front ∷ l) = elim front.tipset [
    | none ↦ unfork fuel t (front ∷ l)
    | some f ↦ elim (ops.key f == ops.parents t) [ true ↦ ok (front ∷ l) | false ↦ unfork fuel t l ]
  ]

  push_tipset :
      ℕ
      → FsTipsetCache T
      → TipsetBlockMessages T
      → Option T
      → Result (FsTipsetCache T × Option (TipsetBlockMessages T))
  push_tipset fuel fsc x none = ok (fsc, none)
  push_tipset fuel fsc x (some t) =
      if front_equals fsc.list x
      then ok (fsc, none)
      else (do l ← unfork fuel t fsc.list; ok (evict fsc (x ∷ l)))

  -- The new cache, and what fell off its end.
  unfoldable pub push_front :
      ℕ
      → FsTipsetCache T
      → Option (TipsetBlockMessages T)
      → Result (FsTipsetCache T × Option (TipsetBlockMessages T))
  unfolding push_tipset
  push_front fuel fsc none = ok (fsc, none)
  push_front fuel fsc (some x) = push_tipset fuel fsc x x.tipset

  front_tipset : List (TipsetBlockMessages T) → Option T
  front_tipset [] = none
  front_tipset (x ∷ l) = x.tipset

  unfoldable pub front : FsTipsetCache T → Option T
  unfolding front_tipset
  front fsc = front_tipset fsc.list
