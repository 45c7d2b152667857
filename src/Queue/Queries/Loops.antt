-- ===== src/Queue/Queries/Loops.antt =====
-- The loops of controllers/tipset_queue.go that select blocks and messages, as filters and searches.
use Prim.Native.String.{count}
use filscan_backend.Prelude.{
  ℕ, zero, suc, ◌+◌, ◌≤◌, ◌≡◌, refl, sym, ap, ◌∙◌, Bool, true, false, String, Option, none, some,
  List, [], ◌∷◌, ◌++◌, map, reverse, length, get_elem?, take, drop, take-all, filter, filter-append,
  find?, flat_map, flat_map-append, ltb, leb, ◌==◌, nat_eq, string_eq, if◌then◌else◌, Bool-cases,
  arith, inl, inr, length-drop, length-append,
}
use mathlib.Core.List.{reverse-append, reverse-cons}
use filscan_backend.Chain.{FilscanMsg, BlockAndMsg, Element}
use filscan_backend.Queue.Queries.{
  msgs_of, by_miner, miner_blocks, from_to, address_msgs, method_msgs, block_with, msg_with,
  or_else, msg_by_cid_blocks, block_msgs, named_msgs, chosen_msgs, sum_blocks, descending,
  blocks_of,
}

module _ {ℓ} {A : Type ℓ} where
  take-suc-some :
      (k : ℕ) (l : List A) {x : A} → get_elem? l k ≡ some x → take (suc k) l ≡ take k l ++ x ∷ []
  take-suc-some k [] e = cc
  take-suc-some zero (y ∷ l) e = cc
  take-suc-some (suc k) (y ∷ l) e = ap (◌∷◌ y) (take-suc-some k l e)

  take-suc-none : (k : ℕ) (l : List A) → get_elem? l k ≡ none → take (suc k) l ≡ take k l
  take-suc-none zero [] e = refl
  take-suc-none (suc k) [] e = refl
  take-suc-none zero (y ∷ l) e = cc
  take-suc-none (suc k) (y ∷ l) e = ap (◌∷◌ y) (take-suc-none k l e)

  take-past : (n : ℕ) (l : List A) → length l ≤ n → take n l ≡ l
  take-past zero [] h = refl
  take-past zero (x ∷ l) h = ground arith
  take-past (suc n) [] h = refl
  take-past (suc n) (x ∷ l) h = ap (◌∷◌ x) (take-past n l (omega arith))

  drop-past : (n : ℕ) (l : List A) → length l ≤ n → drop n l ≡ []
  drop-past zero [] h = refl
  drop-past zero (x ∷ l) h = ground arith
  drop-past (suc n) [] h = refl
  drop-past (suc n) (x ∷ l) h = drop-past n l (omega arith)

  take-nil : (n : ℕ) → take {A = A} n [] ≡ []
  take-nil zero = refl
  take-nil (suc n) = refl

  pub page-lem :
      (start cout : ℕ) (all : List A)
      → (if ltb (length all) start
          then []
          else if leb (length all) (start + cout)
          then drop start all
          else take cout (drop start all))
        ≡ take cout (drop start all)
  page-lem start cout all = elim (Bool-cases (ltb (length all) start)) [
    | inl past ↦ rw (past, drop-past start all (ground arith), take-nil cout) refl
    | inr within ↦ elim (Bool-cases (leb (length all) (start + cout))) [
      | inl last ↦
          rw (within, last, take-past cout (drop start all) (ground (arith, length-drop start all)))
            refl
      | inr more ↦ rw (within, more) refl
    ]
  ]

module _ {T : Type 0} where
  descending-take : (k : ℕ) (l : List (Element T)) → descending k l ≡ reverse (take k l)
  unfolding descending
  descending-take zero l = refl
  descending-take (suc k) l = go (get_elem? l k) refl (descending-take k l)
    where
      go :
          (o : Option (Element T))
          → get_elem? l k ≡ o
          → descending k l ≡ reverse (take k l)
          → elim o as (λ p. List (Element T)) [
            | none ↦ descending k l
            | some x ↦ x ∷ descending k l
          ]
            ≡ reverse (take (suc k) l)
      go none e ih = ih ∙ ap reverse (sym (take-suc-none k l e))
      go (some x) e ih =
          ap (◌∷◌ x) ih
          ∙ sym (reverse-append (take k l) (x ∷ []))
          ∙ ap reverse (sym (take-suc-some k l e))

  pub descending-reverse : (l : List (Element T)) → descending (length l) l ≡ reverse l
  descending-reverse l = descending-take (length l) l ∙ ap reverse (take-all l)

  pub blocks_of-flat_map : (l : List (Element T)) → blocks_of l ≡ flat_map (λ x. x.blocks) l
  unfolding blocks_of
  blocks_of-flat_map [] = refl
  blocks_of-flat_map (x ∷ l) = ap (◌++◌ x.blocks) (blocks_of-flat_map l)

pub length-flat_map-reverse {ℓ κ} :
    {A : Type ℓ} {B : Type κ} (f : A → List B) (l : List A)
    → length (flat_map f (reverse l)) ≡ length (flat_map f l)
length-flat_map-reverse f [] = refl
length-flat_map-reverse f (x ∷ l) =
    ap (λ r. length (flat_map f r)) (reverse-cons x l)
    ∙ ap length (flat_map-append f (reverse l) (x ∷ []))
    ∙ omega (
      arith,
      length-append (flat_map f (reverse l)) (flat_map f (x ∷ [])),
      length-append (f x) (flat_map f l),
      length-append (f x) (flat_map f []),
      length-flat_map-reverse f l,
    )

module _ {T : Type 0} where
  pub sum_blocks-length :
      (l : List (Element T)) → sum_blocks l ≡ length (flat_map (λ x. x.blocks) l)
  unfolding sum_blocks
  sum_blocks-length [] = refl
  sum_blocks-length (x ∷ l) =
      omega (arith, sum_blocks-length l, length-append x.blocks (flat_map (λ y. y.blocks) l))

pub msgs_of-flat_map : (bs : List BlockAndMsg) → msgs_of bs ≡ flat_map (λ b. b.msg) bs
msgs_of-flat_map [] = refl
msgs_of-flat_map (b ∷ bs) = ap (◌++◌ b.msg) (msgs_of-flat_map bs)

method_msgs-filter :
    (method_name : String) (ms : List FilscanMsg)
    → method_msgs method_name ms ≡ filter (λ m. m.method_name == method_name) ms
unfolding method_msgs
method_msgs-filter method_name [] = refl
method_msgs-filter method_name (m ∷ ms) = ground (arith, method_msgs-filter method_name ms)

pub address_msgs-filter :
    (address direction : String) (ms : List FilscanMsg)
    → address_msgs address direction ms ≡ filter (from_to address direction) ms
unfolding address_msgs
address_msgs-filter address direction [] = refl
address_msgs-filter address direction (m ∷ ms) =
    ap (λ r. if from_to address direction m then m ∷ r else r)
      (address_msgs-filter address direction ms)

-- No method name means every method.
abbrev pub named : String → FilscanMsg → Bool
named method_name m = if ltb 0 (count method_name) then m.method_name == method_name else true

filter-true {ℓ} : {A : Type ℓ} (l : List A) → filter (λ x. true) l ≡ l
filter-true [] = refl
filter-true (x ∷ l) = ap (◌∷◌ x) (filter-true l)

pub named_msgs-filter :
    (method_name : String) (ms : List FilscanMsg)
    → named_msgs method_name ms ≡ filter (named method_name) ms
named_msgs-filter method_name ms = go (ltb 0 (count method_name))
  where
    go :
        (b : Bool)
        → (if b then method_msgs method_name ms else ms)
          ≡ filter (λ m. if b then m.method_name == method_name else true) ms
    go true = method_msgs-filter method_name ms
    go false = sym (filter-true ms)

by_miner-find? :
    (miner_arr : List String) (m : String)
    → by_miner miner_arr m
      ≡ elim (find? (λ miner. m == miner) miner_arr) [ some x ↦ true | none ↦ false ]
unfolding by_miner
by_miner-find? [] m = refl
by_miner-find? (miner ∷ miner_arr) m = ground (arith, by_miner-find? miner_arr m)

-- The block's miner is among the miners.
abbrev pub mined_by : List String → BlockAndMsg → Bool
mined_by miner_arr b = elim (find? (λ miner. b.block.block_header.miner == miner) miner_arr) [
  | some x ↦ true
  | none ↦ false
]

pub miner_blocks-filter :
    (miner_arr : List String) (bs : List BlockAndMsg)
    → miner_blocks miner_arr bs ≡ map (λ b. b.block) (filter (mined_by miner_arr) bs)
unfolding miner_blocks
miner_blocks-filter miner_arr [] = refl
miner_blocks-filter miner_arr (b ∷ bs) =
    rw (by_miner-find? miner_arr b.block.block_header.miner)
      (go (mined_by miner_arr b) (miner_blocks-filter miner_arr bs))
  where
    go :
        (c : Bool)
        → miner_blocks miner_arr bs ≡ map (λ b. b.block) (filter (mined_by miner_arr) bs)
        → (if c then b.block ∷ miner_blocks miner_arr bs else miner_blocks miner_arr bs)
          ≡ map
              (λ b. b.block)
              (if c then b ∷ filter (mined_by miner_arr) bs else filter (mined_by miner_arr) bs)
    go true ih = ap (◌∷◌ b.block) ih
    go false ih = ih

abbrev pub has_cid : String → BlockAndMsg → Bool
has_cid cid b = b.block.cid == cid

pub block_with-find? :
    (cid : String) (bs : List BlockAndMsg) → block_with cid bs ≡ find? (has_cid cid) bs
unfolding block_with
block_with-find? cid [] = refl
block_with-find? cid (b ∷ bs) = ground (arith, block_with-find? cid bs)

msg_with-find? :
    (cid : String) (ms : List FilscanMsg) → msg_with cid ms ≡ find? (λ m. m.msg_cid == cid) ms
unfolding msg_with
msg_with-find? cid [] = refl
msg_with-find? cid (m ∷ ms) = ground (arith, msg_with-find? cid ms)

pub or_else-find? {ℓ} :
    {A : Type ℓ} (p : A → Bool) (xs ys : List A)
    → or_else (find? p xs) (find? p ys) ≡ find? p (xs ++ ys)
or_else-find? p [] ys = refl
or_else-find? p (x ∷ xs) ys = ground (arith, or_else-find? p xs ys)

pub msg_by_cid_blocks-find? :
    (cid : String) (bs : List BlockAndMsg)
    → msg_by_cid_blocks cid bs ≡ find? (λ m. m.msg_cid == cid) (flat_map (λ b. b.msg) bs)
unfolding msg_by_cid_blocks
msg_by_cid_blocks-find? cid [] = refl
msg_by_cid_blocks-find? cid (b ∷ bs) =
    rw (msg_with-find? cid b.msg, msg_by_cid_blocks-find? cid bs)
      (or_else-find? _ b.msg (flat_map (λ b. b.msg) bs))

-- The messages of the first block with the cid.
abbrev pub messages_of : Option BlockAndMsg → List FilscanMsg
messages_of none = []
messages_of (some b) = b.msg

pub block_msgs-find? :
    (cid : String) (bs : List BlockAndMsg)
    → block_msgs cid bs ≡ messages_of (find? (has_cid cid) bs)
unfolding block_msgs
block_msgs-find? cid [] = refl
block_msgs-find? cid (b ∷ bs) = ground (arith, block_msgs-find? cid bs)

pub chosen_msgs-filter :
    (chosen : String → Bool) (method_name : String) (bs : List BlockAndMsg)
    → chosen_msgs chosen method_name bs
      ≡ filter (named method_name) (flat_map (λ b. b.msg) (filter (λ b. chosen b.block.cid) bs))
unfolding chosen_msgs
chosen_msgs-filter chosen method_name [] = refl
chosen_msgs-filter chosen method_name (b ∷ bs) =
    go (chosen b.block.cid) (chosen_msgs-filter chosen method_name bs)
  where
    go :
        (c : Bool)
        → chosen_msgs chosen method_name bs
          ≡ filter (named method_name) (flat_map (λ b. b.msg) (filter (λ b. chosen b.block.cid) bs))
        → (if c
            then named_msgs method_name b.msg ++ chosen_msgs chosen method_name bs
            else chosen_msgs chosen method_name bs)
          ≡ filter (named method_name) (
              flat_map
                (λ b. b.msg)
                (if c
                  then b ∷ filter (λ b. chosen b.block.cid) bs
                  else filter (λ b. chosen b.block.cid) bs))
    go true ih =
        rw (named_msgs-filter method_name b.msg, ih)
          (sym (
            filter-append (named method_name) b.msg
              (flat_map (λ b. b.msg) (filter (λ b. chosen b.block.cid) bs))))
    go false ih = ih

-- The first element's blocks.
abbrev pub front_blocks : {T : Type 0} → List (Element T) → List BlockAndMsg
front_blocks [] = []
front_blocks (x ∷ l) = x.blocks
