-- ===== src/Syncer/Cached.antt =====
-- The cache is a chain, whatever tipsets lotus announces and returns.
use filscan_backend.Prelude.{
  ℕ, zero, suc, ◌<◌, ◌≡◌, refl, ◌∙◌, Bool, true, false, not, String, Option, none, some, List, [],
  ◌∷◌, ◌++◌, ◌==◌, string_eq, nat_eq, if◌then◌else◌, Bool-cases, Option-cases, All, Result, ok,
  is_ok, fail, key_mismatch, no_blocks, api_error, ◌⊎◌, >>=-eq-ok, arith, ==_iff, inl, inr,
}
use filscan_backend.Chain.{TipsetOps}
use filscan_backend.Actors.{ActorTables}
use filscan_backend.BlockMessage.{TipsetBlockMessages, equals}
use filscan_backend.BlockMessage.Built.{build_models_data_lists, build_models_data-address}
use filscan_backend.TipsetCache.{FsTipsetCache, new_fs_cache, back?, full, push_back, back_equals}
use filscan_backend.TipsetCache.Fork.{IsPresent}
use filscan_backend.TipsetCache.Invariant.{
  IsValid, Extends, All-back, All-append_one, All-mono, back?-append, back?-nil, parents_of,
  push_back-IsValid, new_fs_cache-IsValid,
}
use filscan_backend.Syncer.{
  LotusApi, or_error, get_block_messages, api_tipset_blockmessages_and_receipts,
  build_persistence_data, fall_through,
}

module _ (T : Type 0) ⦃ops : TipsetOps T⦄ where
  -- lotus's `Equals` of two tipsets compares their blocks: equal tipsets have the same parents.
  abbrev pub EqualsSameParents : Type 0
  EqualsSameParents =
      (a b : T) → ops.equals (some a) (some b) ≡ true → ops.parents a ≡ ops.parents b

module _ {T : Type 0} ⦃ops : TipsetOps T⦄ (api : LotusApi T) (tables : ActorTables)
    (format : ℕ → String) where
  api_tipset-tipset :
      (address : ℕ) (tipset : T) (child_cid : String) {x : TipsetBlockMessages T}
      → api_tipset_blockmessages_and_receipts api tables format address tipset child_cid ≡ ok x
      → (x.tipset ≡ some tipset) × (x.address ≡ address)
  unfolding api_tipset_blockmessages_and_receipts
  api_tipset-tipset address tipset child_cid {x} e =
      let (bs, _, e₁) = >>=-eq-ok (get_block_messages api (api.blocks tipset)) _ e in
      let (ms, _, e₂) = >>=-eq-ok (or_error (api.parent_messages child_cid)) _ e₁ in
      let (rs, _, e₃) = >>=-eq-ok (or_error (api.parent_receipts child_cid)) _ e₂ in
      (
        (build_models_data_lists tables format _ x refl e₃).3,
        build_models_data-address tables format _ x refl e₃,
      )

  -- What `build_persistence_data` returns carries the tipset `parent`, whose key is then the parent key
  -- of `child`, and is a new object.
  pub build_persistence_data-parent :
      (address : ℕ) (child parent : T) {x : TipsetBlockMessages T}
      → build_persistence_data api tables format address child parent ≡ ok x
      → (x.tipset ≡ some parent) × (ops.parents child ≡ ops.key parent) × (x.address ≡ address)
  unfolding build_persistence_data
  build_persistence_data-parent address child parent {x} e =
      go (ops.key_cids child) (ops.parents child == ops.key parent) refl e
    where
      go :
          (cids : List String) (same : Bool)
          → (ops.parents child == ops.key parent) ≡ same
          → (if not same then fail key_mismatch else elim cids [
            | [] ↦ fail no_blocks
            | c ∷ _ ↦ api_tipset_blockmessages_and_receipts api tables format address parent c
          ])
            ≡ ok x
          → (x.tipset ≡ some parent) × (ops.parents child ≡ ops.key parent) × (x.address ≡ address)
      go cids false s h = cc
      go [] true s h = cc
      go (c ∷ cs) true s h =
          let (carries, stands) = api_tipset-tipset address parent c h in
          (carries, (==_iff (ops.parents child) (ops.key parent)).0 s, stands)

  -- What holds between the rounds of the loop: the last element, if there is one, is a tipset with the
  -- parents of `child`.
  abbrev EndsAt : T → FsTipsetCache T → Type 0
  EndsAt child fsc =
      (fsc.list ≡ [])
      ⊎ ((b : TipsetBlockMessages T) × (back? fsc.list ≡ some b)
          × (parents_of b ≡ some (ops.parents child)))

  -- What holds between the rounds of the loop.
  pub record Running (address : ℕ) (child : T) (fsc : FsTipsetCache T) : Type 0 where
    pub valid : IsValid fsc
    pub ends : EndsAt child fsc
    pub older : All (λ (x : TipsetBlockMessages T). x.address < address) fsc.list

  module _ (law : EqualsSameParents T) (address : ℕ) (child parent : T) (fsc : FsTipsetCache T)
      (x : TipsetBlockMessages T) (carries : x.tipset ≡ some parent)
      (linked : ops.parents child ≡ ops.key parent) (stands : x.address ≡ address)
      (r : Running address child fsc) where
    extends : Extends (back? fsc.list) x
    extends = elim r.ends [ inl e ↦ rw (e, back?-nil) tt | inr (b, e, p) ↦ rw e (ground arith) ]

    same_parents :
        (b : TipsetBlockMessages T)
        → back? fsc.list ≡ some b
        → equals x b ≡ true
        → parents_of b ≡ some (ops.parents parent)
    unfolding equals
    same_parents b e same =
        let older =
          All-back (λ (y : TipsetBlockMessages T). y.address < address) fsc.list r.older e in
        let present = All-back IsPresent fsc.list r.valid.present e in
        elim (Option-cases b.tipset) [
          | inl missing ↦ ground (arith, present)
          | inr (t, found) ↦ ground (arith, older, law parent t)
        ]

    ends_after : EndsAt parent (push_back fsc (some x))
    unfolding push_back
    ends_after = elim (Option-cases (back? fsc.list)) [
      | inl e ↦ rw (e, back_equals) (inr (x, back?-append fsc.list x, ground arith))
      | inr (b, e) ↦ elim (Bool-cases (equals x b)) [
        | inl same ↦ rw (e, back_equals) (rw same (inr (b, e, same_parents b e same)))
        | inr other ↦
            rw (e, back_equals) (rw other (inr (x, back?-append fsc.list x, ground arith)))
      ]
    ]

    after_push : full fsc ≡ false → Running (suc address) parent (push_back fsc (some x))
    after_push room =
        let (valid, list, _) = push_back-IsValid fsc x r.valid room (ground arith) extends in
        record { valid = valid; ends = ends_after; older = rw list older }
      where
        older :
            All
              (λ (y : TipsetBlockMessages T). y.address < suc address)
              (if back_equals x (back? fsc.list) then fsc.list else fsc.list ++ x ∷ [])
        older =
            let below =
              All-mono (λ (y : TipsetBlockMessages T). y.address < address)
                (λ y. y.address < suc address) (λ y h. omega arith) fsc.list r.older in
            elim (Bool-cases (back_equals x (back? fsc.list))) [
              | inl same ↦ rw same below
              | inr other ↦ rw other (
                  All-append_one (λ (y : TipsetBlockMessages T). y.address < suc address) fsc.list x
                    below (omega arith))
            ]

  -- What the loop leaves and returns: a valid cache, which is full if there is no error.
  abbrev pub Fills : FsTipsetCache T × Result T → Type 0
  Fills r = IsValid r.0 × ((is_ok r.1 ≡ false) ⊎ (full r.0 ≡ true))

  pub fall_through-Fills :
      EqualsSameParents T
      → (fuel address : ℕ) (child parent : T) (fsc : FsTipsetCache T) → Running address child fsc
      → Fills (fall_through api tables format fuel address fsc child parent)
  unfolding fall_through
  fall_through-Fills law zero address child parent fsc r = (r.valid, inl refl)
  fall_through-Fills law (suc fuel) address child parent fsc r =
      go (full fsc) refl (build_persistence_data api tables format address child parent) refl
        (λ next. fall_through-Fills law fuel (suc address) parent next)
    where
      onward : FsTipsetCache T → T → FsTipsetCache T × Result T
      onward fsc' n = fall_through api tables format fuel (suc address) fsc' parent n

      pushed : TipsetBlockMessages T → Option T → FsTipsetCache T × Result T
      pushed x next = elim next [
        | none ↦ (push_back fsc (some x), fail api_error)
        | some n ↦ onward (push_back fsc (some x)) n
      ]

      pushed-Fills :
          (x : TipsetBlockMessages T) (next : Option T)
          → Running (suc address) parent (push_back fsc (some x))
          → ((n : T) (fsc' : FsTipsetCache T)
              → Running (suc address) parent fsc'
              → Fills (onward fsc' n))
          → Fills (pushed x next)
      pushed-Fills x none after ih = (after.valid, inl refl)
      pushed-Fills x (some n) after ih = ih n _ after

      go :
          (is_full : Bool)
          → full fsc ≡ is_full
          → (built : Result (TipsetBlockMessages T))
          → build_persistence_data api tables format address child parent ≡ built
          → ((n : T) (fsc' : FsTipsetCache T)
              → Running (suc address) parent fsc'
              → Fills (onward fsc' n))
          → Fills (elim is_full [
            | true ↦ (fsc, ok parent)
            | false ↦ elim built [
              | fail e ↦ (fsc, fail e)
              | ok x ↦ pushed x (api.chain_get_tipset (ops.parents parent))
            ]
          ])
      go true f built b ih = (r.valid, inr f)
      go false f (fail x) b ih = (r.valid, inl refl)
      go false f (ok x) b ih =
          let (carries, linked, stands) = build_persistence_data-parent address child parent b in
          pushed-Fills x (api.chain_get_tipset (ops.parents parent))
            (after_push law address child parent fsc x carries linked stands r f) ih

  push_back-max_size :
      (fsc : FsTipsetCache T) (x : TipsetBlockMessages T)
      → (push_back fsc (some x)).max_size ≡ fsc.max_size
  unfolding push_back
  push_back-max_size fsc x = ground arith

  pub fall_through-max_size :
      (fuel address : ℕ) (child parent : T) (fsc : FsTipsetCache T)
      → (fall_through api tables format fuel address fsc child parent).0.max_size ≡ fsc.max_size
  unfolding fall_through
  fall_through-max_size zero address child parent fsc = refl
  fall_through-max_size (suc fuel) address child parent fsc =
      go (full fsc) (build_persistence_data api tables format address child parent)
        (api.chain_get_tipset (ops.parents parent))
        (λ fsc' n. fall_through-max_size fuel (suc address) parent n fsc')
    where
      onward : FsTipsetCache T → T → FsTipsetCache T × Result T
      onward fsc' n = fall_through api tables format fuel (suc address) fsc' parent n

      go :
          (is_full : Bool) (built : Result (TipsetBlockMessages T)) (next : Option T)
          → ((fsc' : FsTipsetCache T) (n : T) → (onward fsc' n).0.max_size ≡ fsc'.max_size)
          → (elim is_full as (λ b. FsTipsetCache T × Result T) [
            | true ↦ (fsc, ok parent)
            | false ↦ elim built [
              | fail e ↦ (fsc, fail e)
              | ok x ↦ elim next [
                | none ↦ (push_back fsc (some x), fail api_error)
                | some n ↦ onward (push_back fsc (some x)) n
              ]
            ]
          ]).0.max_size
            ≡ fsc.max_size
      go true built next ih = refl
      go false (fail e) next ih = refl
      go false (ok x) none ih = push_back-max_size fsc x
      go false (ok x) (some n) ih = ih (push_back fsc (some x)) n ∙ push_back-max_size fsc x

  -- `sync_tipset_cache_fall_through`, started on an empty cache, leaves a valid cache, linked from child
  -- to parent and within its size, also when a call of lotus fails on the way; where it returns no error
  -- the cache is full.
  pub fall_through_lem :
      EqualsSameParents T
      → (fuel address max_size : ℕ) (child parent : T)
      → Fills (fall_through api tables format fuel address (new_fs_cache max_size) child parent)
  unfolding new_fs_cache
  fall_through_lem law fuel address max_size child parent =
      fall_through-Fills law fuel address child parent (new_fs_cache max_size)
        (record { valid = new_fs_cache-IsValid max_size; ends = inl refl; older = tt })
