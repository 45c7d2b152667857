-- ===== src/TipsetCache/Invariant.antt =====
-- The invariant of the cache: every element has a tipset, each is the child of the next, and there
-- are at most `max_size` of them.
use filscan_backend.Prelude.{
  ℕ, ◌<◌, ◌≤◌, ◌≡◌, refl, ap, subst, false, Option, none, some, String, List, [], ◌∷◌, ◌++◌, length,
  length-append, ltb, string_eq, Bool-cases, Option-cases, drop_until, All, ok, arith, ==_iff, inl,
  inr, if◌then◌else◌,
}
use mathlib.Core.List.{append-nil}
use mathlib.Core.Option
use mathlib.Core.Option.{some-injective}
use filscan_backend.Chain.{TipsetOps}
use filscan_backend.TipsetCache.Fork.{IsPresent, is_parent, push_front_lem}
use filscan_backend.BlockMessage.{TipsetBlockMessages}
use filscan_backend.TipsetCache.{
  FsTipsetCache, remove_back, back?, back_equals, new_fs_cache, full, evict, front_equals,
  push_front, push_back,
}

-- What an element that fell off the end holds, as a list.
abbrev pub to_list {ℓ} : {A : Type ℓ} → Option A → List A
to_list none = []
to_list (some x) = x ∷ []

module _ {A : Type 0} where
  pub back?-nil : back? {A = A} [] ≡ none
  unfolding back?
  back?-nil = refl

  pub All-back : (P : A → Type 0) (l : List A) {b : A} → All P l → back? l ≡ some b → P b
  unfolding back?
  All-back P [] h e = cc
  All-back P (x ∷ []) h e = subst P (some-injective _ _ e) h.0
  All-back P (x ∷ y ∷ l) h e = All-back P (y ∷ l) h.1 e

  pub All-append_one : (P : A → Type 0) (l : List A) (x : A) → All P l → P x → All P (l ++ x ∷ [])
  All-append_one P [] x h k = (k, tt)
  All-append_one P (y ∷ l) x h k = (h.0, All-append_one P l x h.1 k)

  pub All-mono : (P Q : A → Type 0) → ((x : A) → P x → Q x) → (l : List A) → All P l → All Q l
  All-mono P Q f [] h = tt
  All-mono P Q f (x ∷ l) h = (f x h.0, All-mono P Q f l h.1)

  pub back?-append : (l : List A) (x : A) → back? (l ++ x ∷ []) ≡ some x
  unfolding back?
  back?-append [] x = refl
  back?-append (y ∷ []) x = refl
  back?-append (y ∷ z ∷ l) x = back?-append (z ∷ l) x

module _ {T : Type 0} ⦃ops : TipsetOps T⦄ where
  abbrev pub key_of : TipsetBlockMessages T → Option String
  key_of x = Option.map ops.key x.tipset

  abbrev pub parents_of : TipsetBlockMessages T → Option String
  parents_of x = Option.map ops.parents x.tipset

  -- From the front on, each element's parent key is the key of the next.
  abbrev pub LinkedTo : TipsetBlockMessages T → List (TipsetBlockMessages T) → Type 0
  LinkedTo x [] = Unit {0}
  LinkedTo x (y ∷ l) = (parents_of x ≡ key_of y) × LinkedTo y l

  abbrev pub IsLinked : List (TipsetBlockMessages T) → Type 0
  IsLinked [] = Unit {0}
  IsLinked (x ∷ l) = LinkedTo x l

  pub record IsValid (fsc : FsTipsetCache T) : Type 0 where
    pub present : All IsPresent fsc.list
    pub linked : IsLinked fsc.list
    pub bounded : length fsc.list ≤ fsc.max_size

  drop_until-IsLinked :
      (t : T) (l : List (TipsetBlockMessages T))
      → IsLinked l
      → IsLinked (drop_until (is_parent t) l)
  drop_until-IsLinked t [] h = tt
  drop_until-IsLinked t (x ∷ []) h = ground arith
  drop_until-IsLinked t (x ∷ y ∷ l) h = ground (arith, drop_until-IsLinked t (y ∷ l) h.1)

  drop_until-All :
      (t : T) (l : List (TipsetBlockMessages T))
      → All IsPresent l
      → All IsPresent (drop_until (is_parent t) l)
  drop_until-All t [] h = tt
  drop_until-All t (x ∷ l) h = ground (arith, drop_until-All t l h.1)

  length-drop_until-le :
      (t : T) (l : List (TipsetBlockMessages T)) → length (drop_until (is_parent t) l) ≤ length l
  length-drop_until-le t [] = omega arith
  length-drop_until-le t (x ∷ l) = ground (arith, length-drop_until-le t l)

  IsLinked-tail :
      (x : TipsetBlockMessages T) (l : List (TipsetBlockMessages T)) → LinkedTo x l → IsLinked l
  IsLinked-tail x [] h = tt
  IsLinked-tail x (y ∷ l) h = h.1

  drop_until-LinkedTo :
      (t : T) (x : TipsetBlockMessages T) (l : List (TipsetBlockMessages T))
      → x.tipset ≡ some t
      → IsLinked l
      → LinkedTo x (drop_until (is_parent t) l)
  drop_until-LinkedTo t x [] e h = tt
  drop_until-LinkedTo t x (y ∷ l) e h = elim (Option-cases y.tipset) [
    | inl missing ↦ rw (missing, is_parent) (drop_until-LinkedTo t x l e (IsLinked-tail y l h))
    | inr (f, found) ↦ ground (
      arith,
      ==_iff (ops.key f) (ops.parents t),
      IsLinked-tail y l h,
      drop_until-LinkedTo t x l e (IsLinked-tail y l h),
    )
  ]

  remove_back-append :
      (x : TipsetBlockMessages T) (l : List (TipsetBlockMessages T))
      → (remove_back x l).0 ++ (remove_back x l).1 ∷ [] ≡ x ∷ l
  unfolding remove_back
  remove_back-append x [] = refl
  remove_back-append x (y ∷ l) = rw (remove_back-append y l)

  remove_back-LinkedTo :
      (w x : TipsetBlockMessages T) (l : List (TipsetBlockMessages T))
      → LinkedTo w (x ∷ l)
      → LinkedTo w (remove_back x l).0
  unfolding remove_back
  remove_back-LinkedTo w x [] h = tt
  remove_back-LinkedTo w x (y ∷ l) h = (h.0, remove_back-LinkedTo x y l h.1)

  remove_back-IsLinked :
      (x : TipsetBlockMessages T) (l : List (TipsetBlockMessages T))
      → LinkedTo x l
      → IsLinked (remove_back x l).0
  unfolding remove_back
  remove_back-IsLinked x [] h = tt
  remove_back-IsLinked x (y ∷ l) h = remove_back-LinkedTo x y l h

  remove_back-All :
      (x : TipsetBlockMessages T) (l : List (TipsetBlockMessages T))
      → All IsPresent (x ∷ l)
      → All IsPresent (remove_back x l).0
  unfolding remove_back
  remove_back-All x [] h = tt
  remove_back-All x (y ∷ l) h = (h.0, remove_back-All y l h.1)

  length-remove_back :
      (x : TipsetBlockMessages T) (l : List (TipsetBlockMessages T))
      → length (remove_back x l).0 ≡ length l
  unfolding remove_back
  length-remove_back x [] = refl
  length-remove_back x (y ∷ l) = omega (arith, length-remove_back y l)

  evict-IsValid :
      (fsc : FsTipsetCache T) (x : TipsetBlockMessages T) (l : List (TipsetBlockMessages T))
      → All IsPresent (x ∷ l)
      → LinkedTo x l
      → length l ≤ fsc.max_size
      → IsValid (evict fsc (x ∷ l)).0
        × ((evict fsc (x ∷ l)).0.list ++ to_list (evict fsc (x ∷ l)).1 ≡ x ∷ l)
  unfolding evict
  evict-IsValid fsc x l p k b = elim (Bool-cases (ltb fsc.max_size (length (x ∷ l)))) [
    | inl more ↦
        rw (more, evict)
          (
            record {
              present = remove_back-All x l p;
              linked = remove_back-IsLinked x l k;
              bounded = omega (arith, length-remove_back x l);
            },
            remove_back-append x l,
          )
    | inr fits ↦
        rw (fits, evict)
          (record { present = p; linked = k; bounded = ground arith }, ap (◌∷◌ x) (append-nil l))
  ]

  evict-max_size :
      (fsc : FsTipsetCache T) (l : List (TipsetBlockMessages T))
      → (evict fsc l).0.max_size ≡ fsc.max_size
  unfolding evict
  evict-max_size fsc [] = refl
  evict-max_size fsc (x ∷ l) = ground arith

  pushed-IsValid :
      (fsc : FsTipsetCache T) (x : TipsetBlockMessages T) (t : T)
      → x.tipset ≡ some t
      → IsValid fsc
      → IsValid (evict fsc (x ∷ drop_until (is_parent t) fsc.list)).0
        × ((evict fsc (x ∷ drop_until (is_parent t) fsc.list)).0.list
              ++ to_list (evict fsc (x ∷ drop_until (is_parent t) fsc.list)).1
            ≡ x ∷ drop_until (is_parent t) fsc.list)
  pushed-IsValid fsc x t e v =
      evict-IsValid fsc x (drop_until (is_parent t) fsc.list)
        (ground arith, drop_until-All t fsc.list v.present)
        (drop_until-LinkedTo t x fsc.list e v.linked)
        (omega (arith, length-drop_until-le t fsc.list, v.bounded))

  -- On a valid cache a push of a new tipset `t`, with any fuel above the number of elements, succeeds
  -- and leaves a valid cache: linked from parent to parent and within its size. The new element, the
  -- old elements from the parent of `t` on, and no other, are in the cache or, the last of them, in
  -- what is returned.
  pub push_front-IsValid :
      (fuel : ℕ) (fsc : FsTipsetCache T) (x : TipsetBlockMessages T) (t : T)
      → x.tipset ≡ some t
      → length fsc.list < fuel
      → front_equals fsc.list x ≡ false
      → IsValid fsc
      → (r : FsTipsetCache T × Option (TipsetBlockMessages T)) × (push_front fuel fsc (some x)
          ≡ ok r)
        × IsValid r.0
        × (r.0.list ++ to_list r.1 ≡ x ∷ drop_until (is_parent t) fsc.list)
  push_front-IsValid fuel fsc x t e h fresh v =
      let (valid, parts) = pushed-IsValid fsc x t e v in
      (
        evict fsc (x ∷ drop_until (is_parent t) fsc.list),
        push_front_lem fuel fsc x t e h v.present fresh,
        valid,
        parts,
      )

  -- A push that finds the same tipset in front changes nothing; so every push with a tipset succeeds.
  pub push_front_total :
      (fuel : ℕ) (fsc : FsTipsetCache T) (x : TipsetBlockMessages T) (t : T)
      → x.tipset ≡ some t
      → length fsc.list < fuel
      → IsValid fsc
      → (r : FsTipsetCache T × Option (TipsetBlockMessages T)) × (push_front fuel fsc (some x)
          ≡ ok r)
        × IsValid r.0
        × (r.0.max_size ≡ fsc.max_size)
  push_front_total fuel fsc x t e h v = elim (Bool-cases (front_equals fsc.list x)) [
    | inl same ↦ ((fsc, none), unfold push_front in ground arith, v, refl)
    | inr fresh ↦
        let kept = drop_until (is_parent t) fsc.list in
        (
          evict fsc (x ∷ kept),
          push_front_lem fuel fsc x t e h v.present fresh,
          (pushed-IsValid fsc x t e v).0,
          evict-max_size fsc (x ∷ kept),
        )
  ]

  -- What `push_back` wants of the element: its key is the parent key of the last element.
  abbrev pub Extends : Option (TipsetBlockMessages T) → TipsetBlockMessages T → Type 0
  Extends none x = Unit {0}
  Extends (some b) x = parents_of b ≡ key_of x

  append_one-LinkedTo :
      (w x : TipsetBlockMessages T) (l : List (TipsetBlockMessages T))
      → LinkedTo w l
      → Extends (back? (w ∷ l)) x
      → LinkedTo w (l ++ x ∷ [])
  unfolding back?
  append_one-LinkedTo w x [] h e = (e, tt)
  append_one-LinkedTo w x (y ∷ l) h e = (h.0, append_one-LinkedTo y x l h.1 e)

  append_one-IsLinked :
      (x : TipsetBlockMessages T) (l : List (TipsetBlockMessages T))
      → IsLinked l
      → Extends (back? l) x
      → IsLinked (l ++ x ∷ [])
  append_one-IsLinked x [] h e = tt
  append_one-IsLinked x (y ∷ l) h e = append_one-LinkedTo y x l h e

  -- `push_back` on a cache that is not full, of an element that has a tipset and extends the chain,
  -- keeps the cache valid and its limit; it changes nothing exactly if the element equals the last one.
  pub push_back-IsValid :
      (fsc : FsTipsetCache T) (x : TipsetBlockMessages T)
      → IsValid fsc
      → full fsc ≡ false
      → IsPresent x
      → Extends (back? fsc.list) x
      → IsValid (push_back fsc (some x))
        × ((push_back fsc (some x)).list
            ≡ (if back_equals x (back? fsc.list) then fsc.list else fsc.list ++ x ∷ []))
        × ((push_back fsc (some x)).max_size ≡ fsc.max_size)
  unfolding push_back full
  push_back-IsValid fsc x v room p e = elim (Bool-cases (back_equals x (back? fsc.list))) [
    | inl same ↦ rw same (v, refl, refl)
    | inr fresh ↦ rw fresh (
      record {
        present = All-append_one IsPresent fsc.list x v.present p;
        linked = append_one-IsLinked x fsc.list v.linked e;
        bounded = ground (arith, length-append fsc.list (x ∷ []));
      },
      refl,
      refl,
    )
  ]

  pub new_fs_cache-IsValid : (max_size : ℕ) → IsValid (new_fs_cache {T = T} max_size)
  unfolding new_fs_cache
  new_fs_cache-IsValid max_size = record { present = tt; linked = tt; bounded = omega arith }
