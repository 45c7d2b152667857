-- ===== src/Queue/Remove.antt =====
-- `DelTipsetByHeight` removes from the array that its loop goes over.
use filscan_backend.Prelude.{
  ℕ, zero, suc, ◌+◌, ◌-◌, ◌<◌, ◌≤◌, ◌≡◌, refl, sym, ap, ◌∙◌, subst, true, false, not, some, List,
  [], ◌∷◌, ◌++◌, length, get_elem?, take, drop, All, filter, ltb, ◌==◌, nat_eq, if_true, if_false,
  Bool-cases, arith, inl, inr, length-append, length-drop, take-all, ok, fail, out_of_range,
}
use mathlib.Core.List.{append_assoc, append-nil}
use filscan_backend.Chain.{TipsetOps, Element}
use filscan_backend.Queue.{SliceEntry, shift, height_of, outside, del_loop, del_tipset_by_height}
use filscan_backend.Queue.Order.{Above, IsAscending, outside-lem}

module _ {ℓ} {A : Type ℓ} where
  get_elem?-append : (pre l : List A) (x : A) → get_elem? (pre ++ x ∷ l) (length pre) ≡ some x
  get_elem?-append [] l x = refl
  get_elem?-append (y ∷ pre) l x = get_elem?-append pre l x

  take-append :
      (m n : ℕ) (pre l : List A) → m ≡ length pre + n → take m (pre ++ l) ≡ pre ++ take n l
  take-append m n [] l e = ap (λ k. take k l) (omega (arith, e))
  take-append zero n (y ∷ pre) l e = ground arith
  take-append (suc m) n (y ∷ pre) l e = ap (◌∷◌ y) (take-append m n pre l (omega (arith, e)))

  drop-append : (m n : ℕ) (pre l : List A) → m ≡ length pre + n → drop m (pre ++ l) ≡ drop n l
  drop-append m n [] l e = ap (λ k. drop k l) (omega (arith, e))
  drop-append zero n (y ∷ pre) l e = ground arith
  drop-append (suc m) n (y ∷ pre) l e = drop-append m n pre l (omega (arith, e))

  All-drop : (P : A → Type 0) (n : ℕ) (l : List A) → All P l → All P (drop n l)
  All-drop P zero l h = h
  All-drop P (suc n) [] h = tt
  All-drop P (suc n) (x ∷ l) h = All-drop P n l h.1

  All-append : (P : A → Type 0) (l m : List A) → All P l → All P m → All P (l ++ m)
  All-append P [] m h k = k
  All-append P (x ∷ l) m h k = (h.0, All-append P l m h.1 k)

  -- The array of `pre`, `x` and `y ∷ l` after `x` is removed.
  length-append_one : (pre : List A) (x : A) → suc (length pre) ≡ length (pre ++ x ∷ [])
  length-append_one pre x = omega (arith, length-append pre (x ∷ []))

  shift-lem :
      (pre l : List A) (x : A)
      → shift (pre ++ x ∷ l) (length (pre ++ x ∷ l)) (length pre)
        ≡ pre ++ (l ++ drop (length l) (x ∷ l))
  unfolding shift
  shift-lem pre l x =
      let arr = pre ++ x ∷ l in
      let len = length-append pre (x ∷ l) in
      let front : take (length pre) arr ≡ pre =
        take-append (length pre) 0 pre (x ∷ l) (omega arith) ∙ append-nil pre in
      let moved : drop (suc (length pre)) (take (length arr) arr) ≡ l =
        ap (drop (suc (length pre))) (take-all arr)
        ∙ drop-append (suc (length pre)) 1 pre (x ∷ l) (omega arith) in
      let last : drop (length arr - 1) arr ≡ drop (length l) (x ∷ l) =
        drop-append (length arr - 1) (length l) pre (x ∷ l) (omega (arith, len)) in
      rw (front, moved, last) refl

  take-shift :
      (pre l : List A) (x : A)
      → take (length (pre ++ x ∷ l) - 1) (shift (pre ++ x ∷ l) (length (pre ++ x ∷ l)) (length pre))
        ≡ pre ++ l
  take-shift pre l x =
      ap (take (length (pre ++ x ∷ l) - 1)) (shift-lem pre l x)
      ∙ take-append (length (pre ++ x ∷ l) - 1) (length l) pre (l ++ drop (length l) (x ∷ l))
          (omega (arith, length-append pre (x ∷ l)))
      ∙ ap (◌++◌ pre)
          (take-append (length l) 0 l (drop (length l) (x ∷ l)) (omega arith) ∙ append-nil l)

module _ {T : Type 0} ⦃ops : TipsetOps T⦄ where
  abbrev Fails : ℕ → Element T → Type 0
  Fails h x = (height_of x == h) ≡ false

  -- A round that keeps its element, and a round that removes it.
  del_loop-other :
      (rounds h key len : ℕ) (arr : List (Element T)) (x : Element T)
      → get_elem? arr key ≡ some x
      → Fails h x
      → del_loop (suc rounds) h key arr len ≡ del_loop rounds h (suc key) arr len
  unfolding del_loop
  del_loop-other rounds h key len arr x e f = rw (e, del_loop) (if_false _ _ _ f)

  del_loop-found :
      (rounds h key len : ℕ) (arr : List (Element T)) (x : Element T)
      → get_elem? arr key ≡ some x
      → (height_of x == h) ≡ true
      → key < len
      → del_loop (suc rounds) h key arr len
        ≡ del_loop rounds h (suc key) (shift arr len key) (len - 1)
  unfolding del_loop
  del_loop-found rounds h key len arr x e f k =
      rw (e, del_loop)
        (if_true _ _ _ f
          ∙ if_false (ltb len (suc key)) (fail out_of_range)
              (del_loop rounds h (suc key) (shift arr len key) (len - 1)) (ground arith))

  -- Where the heights from `key` on are others, the loop removes nothing.
  del_loop-none :
      (rounds h key len : ℕ) (arr pre l : List (Element T))
      → arr ≡ pre ++ l
      → key ≡ length pre
      → rounds ≤ length l
      → All (Fails h) l
      → del_loop rounds h key arr len ≡ ok (take len arr)
  unfolding del_loop
  del_loop-none zero h key len arr pre l e k r f = refl
  del_loop-none (suc rounds) h key len arr pre [] e k r f = ground arith
  del_loop-none (suc rounds) h key len arr pre (x ∷ l) e k r f =
      let found =
        ap (get_elem? arr) k ∙ ap (λ a. get_elem? a (length pre)) e ∙ get_elem?-append pre l x in
      let ih =
        del_loop-none rounds h (suc key) len arr (pre ++ x ∷ []) l
          (e ∙ sym (append_assoc pre (x ∷ []) l)) (omega (arith, k, length-append pre (x ∷ [])))
          (omega (arith, r)) f.1 in
      del_loop-other rounds h key len arr x found f.0 ∙ ih

  Above-Fails : (h : ℕ) (l : List (Element T)) → Above h l → All (Fails h) l
  Above-Fails h [] a = tt
  Above-Fails h (x ∷ l) a = (ground arith, Above-Fails h l a.1)

  abbrev others : ℕ → List (Element T) → List (Element T)
  others h l = filter (λ x. not (height_of x == h)) l

  others-All : (h : ℕ) (l : List (Element T)) → All (Fails h) l → others h l ≡ l
  others-All h [] f = refl
  others-All h (x ∷ l) f = rw (f.0) (ap (◌∷◌ x) (others-All h l f.1))

  -- The element `x` is found and removed; those behind it are others, also the copy of the last one
  -- that is left at the end of the array.
  removed :
      (h : ℕ) (pre : List (Element T)) (x : Element T) (l : List (Element T))
      → (height_of x == h) ≡ true
      → All (Fails h) l
      → del_loop (suc (length l)) h (length pre) (pre ++ x ∷ l) (length (pre ++ x ∷ l))
        ≡ ok (pre ++ l)
  unfolding del_loop
  removed h pre x l same f =
      del_loop-found (length l) h (length pre) (length arr) arr x (get_elem?-append pre l x) same
        (omega (arith, length-append pre (x ∷ l)))
      ∙ none l f
      ∙ ap ok (take-shift pre l x)
    where
      arr : List (Element T)
      arr = pre ++ x ∷ l

      none :
          (l : List (Element T))
          → All (Fails h) l
          → del_loop
              (length l)
              h
              (suc (length pre))
              (shift (pre ++ x ∷ l) (length (pre ++ x ∷ l)) (length pre))
              (length (pre ++ x ∷ l) - 1)
            ≡ ok (
                take
                  (length (pre ++ x ∷ l) - 1)
                  (shift (pre ++ x ∷ l) (length (pre ++ x ∷ l)) (length pre)))
      none [] f = refl
      none (y ∷ l) f =
          let last = drop (length l) (y ∷ l) in
          del_loop-none (suc (length l)) h (suc (length pre)) _ _ (pre ++ y ∷ []) (l ++ last)
            (shift-lem pre (y ∷ l) x ∙ sym (append_assoc pre (y ∷ []) (l ++ last)))
            (omega (arith, length-append pre (y ∷ [])))
            (omega (arith, length-append l last, length-drop (length l) (y ∷ l)))
            (All-append (Fails h) l last f.1 (All-drop (Fails h) (length l) (y ∷ l) f))

  others-keep :
      (h : ℕ) (x : Element T) (l : List (Element T)) → Fails h x → others h (x ∷ l) ≡ x ∷ others h l
  others-keep h x l f = rw f refl

  del_loop-others :
      (h : ℕ) (pre l : List (Element T))
      → IsAscending l
      → del_loop (length l) h (length pre) (pre ++ l) (length (pre ++ l)) ≡ ok (pre ++ others h l)
  unfolding del_loop
  del_loop-others h pre [] a = ap ok (take-all (pre ++ []))
  del_loop-others h pre (x ∷ l) a = elim (Bool-cases (height_of x == h)) [
    | inl same ↦
        let rest = Above-Fails h l (subst (λ k. Above k l) (ground arith) a.0) in
        rw (same, others-All h l rest) (removed h pre x l same rest)
    | inr other ↦
        del_loop-other (length l) h (length pre) (length (pre ++ x ∷ l)) (pre ++ x ∷ l) x
          (get_elem?-append pre l x) other
        ∙ ap (λ k. del_loop (length l) h k (pre ++ x ∷ l) (length (pre ++ x ∷ l)))
            (length-append_one pre x)
        ∙ ap (λ m. del_loop (length l) h (length (pre ++ x ∷ [])) m (length m))
            (sym (append_assoc pre (x ∷ []) l))
        ∙ del_loop-others h (pre ++ x ∷ []) l a.1
        ∙ ap ok (append_assoc pre (x ∷ []) (others h l))
        ∙ ap (λ r. ok (pre ++ r)) (sym (others-keep h x l other))
  ]

  outside-others :
      (h : ℕ) (l : List (Element T)) → IsAscending l → outside h l ≡ true → l ≡ others h l
  outside-others h l a out = sym (others-All h l (outside-lem h l a out))

  -- From a queue of ascending heights `DelTipsetByHeight` removes the elements of the height, and no
  -- others, without a panic.
  pub del_tipset_by_height-filter :
      (entry : SliceEntry T) (h : ℕ)
      → IsAscending entry.element
      → del_tipset_by_height entry h
        ≡ ok (record { element = filter (λ x. not (height_of x == h)) entry.element })
  unfolding del_tipset_by_height
  del_tipset_by_height-filter entry h a = elim (Bool-cases (outside h entry.element)) [
    | inl out ↦
        rw out (ap (λ l. ok (record { element = l })) (outside-others h entry.element a out))
    | inr inside ↦ rw inside (rw (del_loop-others h [] entry.element a) refl)
  ]
