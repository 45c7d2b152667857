-- ===== src/Pages/Combined.antt =====
-- The pages of controllers/tipsetqueue_DB.go against the list of all items: those in the cache, and
-- behind them those in the database.
use filscan_backend.Prelude.{
  ℕ, zero, suc, ◌<◌, leb, Bool-cases, ◌+◌, ◌-◌, ◌≤◌, ◌≡◌, ◌⊎◌, refl, sym, ap, ◌∙◌, String, List, [],
  ◌∷◌, ◌++◌, map, length, take, drop, ltb, string_eq, if◌then◌else◌, Result, ok, arith, inl, inr,
  if_true, if_false, >>=-ok, length-take, length-drop,
}
use mathlib.Core.List.{append-nil}
use filscan_backend.Prelude.Int.{ℤ, pos, ◌-ℤ◌, ltb_ℤ}
use filscan_backend.Pages.{MsgFilter, Store, turned, found_msgs, get_block_list_by_miner}
use filscan_backend.Pages.Cash.{
  drop-append, drop-append_past, drop-past, pos_less, take-append, take-nil,
}

-- What the driver documents of skip and limit, on what is stored: the items that the query selects,
-- without the first `b`, `n` at most.
pub record Holds {B M : Type 0} (db : Store B M) : Type 0 where
  pub stored_blocks : List String → List B
  pub stored_msgs : MsgFilter → String → List M
  pub cids_of : String → List (List String)
  pub find_blocks :
      (miners : List String) (b n : ℕ)
      → db.find_blocks miners (pos b) (pos (suc n))
        ≡ ok (take (suc n) (drop b (stored_blocks miners)))
  pub count_blocks :
      (miners : List String) → db.count_blocks miners ≡ ok (length (stored_blocks miners))
  pub find_msgs :
      (kind : MsgFilter) (method : String) (b n : ℕ)
      → db.find_msgs kind method (pos b) (pos (suc n))
        ≡ ok (take (suc n) (drop b (stored_msgs kind method)))
  pub count_msgs :
      (kind : MsgFilter) (method : String)
      → db.count_msgs kind method ≡ ok (length (stored_msgs kind method))
  pub block_msg_cids : (cid : String) → db.block_msg_cids cid ≡ ok (cids_of cid)

-- The rest of a page, if the limit is what the cached part leaves of it.
limit-cases :
    (c k : ℕ)
    → k ≤ c
    → ((pos c -ℤ pos k ≡ pos 0) × (c - k ≡ 0))
      ⊎ ((n : ℕ) × (pos c -ℤ pos k ≡ pos (suc n)) × (c - k ≡ suc n))
limit-cases c k h = go (c - k) refl
  where
    go :
        (d : ℕ)
        → c - k ≡ d
        → ((pos c -ℤ pos k ≡ pos 0) × (d ≡ 0))
          ⊎ ((n : ℕ) × (pos c -ℤ pos k ≡ pos (suc n)) × (d ≡ suc n))
    go zero e = inl (ground arith, refl)
    go (suc n) e = inr (n, ground arith, refl)

-- The distance of two indices.
abbrev pub away : ℕ → ℕ → ℕ
away a b = if ltb a b then b - a else a - b

pub turned-away : (s m d : ℕ) → turned (pos s -ℤ pos m -ℤ pos d) ≡ pos (away s (m + d))
turned-away s m d = ground arith

module _ {A B : Type 0} (f : A → B) where
  map-take : (n : ℕ) (l : List A) → map f (take n l) ≡ take n (map f l)
  map-take zero l = refl
  map-take (suc n) [] = refl
  map-take (suc n) (x ∷ l) = ap (◌∷◌ (f x)) (map-take n l)

  map-drop : (n : ℕ) (l : List A) → map f (drop n l) ≡ drop n (map f l)
  map-drop zero l = refl
  map-drop (suc n) [] = refl
  map-drop (suc n) (x ∷ l) = map-drop n l

  pub length-map : (l : List A) → length (map f l) ≡ length l
  length-map [] = refl
  length-map (x ∷ l) = ap suc (length-map l)

  pub map-page : (s c : ℕ) (l : List A) → map f (take c (drop s l)) ≡ take c (drop s (map f l))
  map-page s c l = map-take c (drop s l) ∙ ap (take c) (map-drop s l)

-- The page behind `s` of two lists, as the code puts it together: `m` items of the first one, and of the
-- second one what is missing, from `m + d` on.
abbrev pub joined : {A : Type 0} → ℕ → ℕ → List A → List A → List A
joined s c xs ys =
    let m = length (take c (drop s xs)) in
    let d = if ltb s (length xs) then 0 else length xs in
    take c (drop s xs) ++ take (c - m) (drop (away s (m + d)) ys)

module _ {A : Type 0} where
  -- It is the page of both if it lies in one of them.
  pub joined-page :
      (s c : ℕ) (xs ys : List A)
      → (s + c ≤ length xs) ⊎ (length xs ≤ s)
      → joined s c xs ys ≡ take c (drop s (xs ++ ys))
  joined-page s c xs ys (inl inside) =
      ap
        (λ n.
          take c (drop s xs)
          ++ take n (
              drop
                (away s
                  (length (take c (drop s xs)) + (if ltb s (length xs) then 0 else length xs)))
                ys))
        none_missing
      ∙ append-nil (take c (drop s xs))
      ∙ sym (
          ap (take c) (drop-append s xs ys (omega arith))
          ∙ take-append c (drop s xs) ys (omega (arith, length-drop s xs)))
    where
      none_missing : c - length (take c (drop s xs)) ≡ 0
      none_missing = omega (arith, length-take c (drop s xs), length-drop s xs)
  joined-page s c xs ys (inr past) =
      ap
        (λ page.
          page
          ++ take (c - length page)
              (drop (away s (length page + (if ltb s (length xs) then 0 else length xs))) ys))
        nothing
      ∙ ap (λ n. take n (drop (away s (0 + (if ltb s (length xs) then 0 else length xs))) ys))
          all_missing
      ∙ ap (λ n. take c (drop n ys)) far
      ∙ ap (take c) (sym (drop-append_past s xs ys past))
    where
      nothing : take c (drop s xs) ≡ []
      nothing = ap (take c) (drop-past s xs past) ∙ take-nil c

      all_missing : c - 0 ≡ c
      all_missing = omega arith

      far : away s (0 + (if ltb s (length xs) then 0 else length xs)) ≡ s - length xs
      far = ground arith

module _ {B M : Type 0} (db : Store B M) (h : Holds db) where
  limited :
      {R : Type 0} (find : ℤ → Result (List R)) (rest : List R) (c k : ℕ)
      → k ≤ c
      → ((n : ℕ) → find (pos (suc n)) ≡ ok (take (suc n) rest))
      → (if ltb_ℤ (pos 0) (pos c -ℤ pos k) then find (pos c -ℤ pos k) else ok [])
        ≡ ok (take (c - k) rest)
  limited find rest c k le e = elim (limit-cases c k le) [
    | inl (nothing, none_left) ↦
        if_false _ _ _ (ap (ltb_ℤ (pos 0)) nothing) ∙ ap (λ n. ok (take n rest)) (sym none_left)
    | inr (n, some_left, left) ↦
        if_true _ _ _ (ap (ltb_ℤ (pos 0)) some_left ∙ pos_less 0 (suc n) ∙ ground arith)
        ∙ ap find some_left
        ∙ e n
        ∙ ap (λ i. ok (take i rest)) (sym left)
  ]

  pub found_msgs-page :
      (kind : MsgFilter) (method : String) (b c k : ℕ)
      → k ≤ c
      → found_msgs db kind method (pos b) (pos c -ℤ pos k)
        ≡ ok (take (c - k) (drop b (h.stored_msgs kind method)), length (h.stored_msgs kind method))
  found_msgs-page kind method b c k le =
      >>=-ok _
        (limited (db.find_msgs kind method (pos b)) (drop b (h.stored_msgs kind method)) c k le
          (h.find_msgs kind method b))
        (>>=-ok _ (h.count_msgs kind method) refl)

  pub found_blocks-page :
      (miners : List String) (b c k : ℕ)
      → get_block_list_by_miner db miners (pos b) (pos c -ℤ pos k)
        ≡ ok (take (c - k) (drop b (h.stored_blocks miners)), length (h.stored_blocks miners))
  unfolding get_block_list_by_miner
  found_blocks-page miners b c k = >>=-ok _ found (>>=-ok _ (h.count_blocks miners) refl)
    where
      none_left : c < k → 0 ≡ c - k
      none_left less = omega arith

      found :
          (if ltb_ℤ (pos 0) (pos c -ℤ pos k)
            then db.find_blocks miners (pos b) (pos c -ℤ pos k)
            else ok [])
          ≡ ok (take (c - k) (drop b (h.stored_blocks miners)))
      found = elim (Bool-cases (leb k c)) [
        | inl fits ↦
            limited (db.find_blocks miners (pos b)) (drop b (h.stored_blocks miners)) c k
              (ground arith) (h.find_blocks miners b)
        | inr over ↦
            if_false (ltb_ℤ (pos 0) (pos c -ℤ pos k)) _ _ (ground arith)
            ∙ ap (λ n. ok (take n (drop b (h.stored_blocks miners)))) (none_left (ground arith))
      ]

pub pair : {A B : Type 0} {a a' : A} {b b' : B} → a ≡ a' → b ≡ b' → ◌≡◌ {A = A × B} (a, b) (a', b')
pair e k = cc

-- The code counts before it converts the items of the page.
pub map-joined :
    {A B : Type 0} (f : A → B) (s c : ℕ) (xs : List A) (ys : List B)
    → map f (take c (drop s xs))
        ++ take (c - length (take c (drop s xs))) (
            drop
              (away s (length (take c (drop s xs)) + (if ltb s (length xs) then 0 else length xs)))
              ys)
      ≡ joined s c (map f xs) ys
map-joined f s c xs ys =
    ap
      (λ n.
        map f (take c (drop s xs))
        ++ take (c - n) (drop (away s (n + (if ltb s (length xs) then 0 else length xs))) ys))
      (sym (length-map f (take c (drop s xs))))
    ∙ ap
        (λ p.
          p
          ++ take (c - length p)
              (drop (away s (length p + (if ltb s (length xs) then 0 else length xs))) ys))
        (map-page f s c xs)
    ∙ ap
        (λ n.
          take c (drop s (map f xs))
          ++ take (c - length (take c (drop s (map f xs))))
              (drop (away s (length (take c (drop s (map f xs))) + (if ltb s n then 0 else n))) ys))
        (sym (length-map f xs))

-- Behind the cached items, `GetMsgByAddressFromToMethod` subtracts their number twice.
pub address_offset :
    (start n : ℕ)
    → n ≤ start
    → (if ltb_ℤ (pos start -ℤ pos 0 -ℤ pos n) (pos 0)
        then pos 0 -ℤ (pos start -ℤ pos n -ℤ pos n)
        else turned (pos start -ℤ pos n -ℤ pos n))
      ≡ pos (away start (n + n))
address_offset start n h = ground arith
