-- ===== src/Syncer/Handlers.antt =====
-- The handlers of one applied tipset keep the state of the scanner consistent.
use filscan_backend.Prelude.{
  ℕ, suc, ◌+◌, ◌<◌, ◌≡◌, refl, ap, ◌∙◌, Bool, true, false, not, ◌&&◌, ◌||◌, is_panic, String,
  Option, none, some, [], ◌==◌, nat_eq, string_eq, if◌then◌else◌, is_some, Bool-cases, Result, ok,
  fail, nil_dereference, deref, ◌>>=◌, ◌⊎◌, arith, inl, inr, if_true, if_false,
}
use filscan_backend.Chain.{TipsetOps}
use filscan_backend.Actors.{ActorTables}
use filscan_backend.BlockMessage.{TipsetBlockMessages}
use filscan_backend.TipsetCache.{FsTipsetCache}
use filscan_backend.TipsetCache.Invariant.{IsValid, push_front_total}
use filscan_backend.Syncer.{
  LotusApi, HeadChange, Filscaner, append_option, first_filled, build_persistence_data,
  fall_through, handle_first_appl_tipset, secod_push, handle_secod_appl_tipset, handle_appl_tipset,
  display_notifi_,
}
use filscan_backend.Syncer.Genesis.Lowers.{IsChain}
use filscan_backend.Syncer.Regular.{
  NoPanic, HasMessages, fall_through-NoPanic, build_persistence_data-NoPanic,
}
use filscan_backend.Syncer.Cached.{
  EqualsSameParents, fall_through-Fills, fall_through-max_size, build_persistence_data-parent,
}

module _ {T : Type 0} ⦃ops : TipsetOps T⦄ where
  -- Before the first handled tipset the cache is empty; afterwards the last applied tipset is known, so
  -- that the second handler does not dereference nil. The cache is valid and smaller than the fuel.
  pub record IsConsistent (fuel : ℕ) (fs : Filscaner T) : Type 0 where
    pub valid : IsValid fs.tipsets_cache
    pub unstarted : (fs.is_second ≡ true) ⊎ (fs.tipsets_cache.list ≡ [])
    pub started : (fs.is_second ≡ false) ⊎ (is_some fs.last_appl_tipset ≡ true)
    pub enough : fs.tipsets_cache.max_size < fuel

  -- `IsConsistent`, but for the last applied tipset, which the caller sets.
  record IsHandled (fuel : ℕ) (fs : Filscaner T) : Type 0 where
    valid : IsValid fs.tipsets_cache
    second : fs.is_second ≡ true
    enough : fs.tipsets_cache.max_size < fuel

all_three : (a b c : Bool) → (a && not b && not c) ≡ true → (a ≡ true) × (b ≡ false) × (c ≡ false)
all_three false b c e = cc
all_three true true c e = cc
all_three true false true e = cc
all_three true false false e = (refl, refl, refl)

module _ {T : Type 0} ⦃ops : TipsetOps T⦄ (api : LotusApi T) (tables : ActorTables)
    (format : ℕ → String) where
  handled :
      (fuel : ℕ) (fs : Filscaner T) → fs.is_second ≡ true → IsConsistent fuel fs → IsHandled fuel fs
  handled fuel fs second c = record { valid = c.valid; second = second; enough = c.enough }

  first_filled_lem :
      (fs : Filscaner T) (r : FsTipsetCache T × Result T)
      → NoPanic r.1
      → first_filled api tables format fs r
        ≡ ok (record fs { is_second = true; tipsets_cache = r.0 })
  first_filled_lem fs (fsc, ok t) n = refl
  first_filled_lem fs (fsc, fail e) n = if_false (is_panic e) _ _ n

  first-IsHandled :
      EqualsSameParents T
      → HasMessages api
      → (top : ℕ) → IsChain api top
      → (fuel : ℕ) (fs : Filscaner T) (child : T) → top < fuel
      → fs.is_second ≡ false
      → IsConsistent fuel fs
      → is_some (api.chain_get_tipset (ops.parents child)) ≡ true
      → (fs' : Filscaner T) × (handle_first_appl_tipset api tables format fuel fs child ≡ ok fs')
        × IsHandled fuel fs'
  unfolding handle_first_appl_tipset
  first-IsHandled law regular top chain fuel fs child above first c answered =
      go (api.chain_get_tipset (ops.parents child)) refl answered
    where
      empty : fs.tipsets_cache.list ≡ []
      empty = elim c.unstarted [ inl second ↦ cc | inr e ↦ e ]

      went : T → FsTipsetCache T × Result T
      went parent = fall_through api tables format fuel fs.address fs.tipsets_cache child parent

      left : T → Filscaner T
      left parent = record fs {
        is_second = true;
        tipsets_cache = (went parent).0;
        address = fs.address + fuel;
      }

      go :
          (o : Option T)
          → api.chain_get_tipset (ops.parents child) ≡ o
          → is_some o ≡ true
          → (fs' : Filscaner T) × ((elim o as (λ x. Result (Filscaner T)) [
            | none ↦ fail nil_dereference
            | some parent ↦
                first_filled api tables format
                  (record fs { address = fs.address + fuel })
                  (went parent)
          ])
              ≡ ok fs')
            × IsHandled fuel fs'
      go none known e = cc
      go (some parent) known e = (
        left parent,
        first_filled_lem (record fs { address = fs.address + fuel }) (went parent)
            (fall_through-NoPanic api tables format regular top fuel fs.address child parent
              fs.tipsets_cache chain (ops.parents child, known)
              (omega (arith, above, chain.bounded parent (ops.parents child, known)))),
        record {
          valid =
              (fall_through-Fills api tables format law fuel fs.address child parent
                fs.tipsets_cache
                (record { valid = c.valid; ends = inl empty; older = rw empty tt })).0;
          second = refl;
          enough = omega (
            arith,
            c.enough,
            fall_through-max_size api tables format fuel fs.address child parent fs.tipsets_cache,
          );
        },
      )

  secod_push-IsHandled :
      (fuel : ℕ) (fs : Filscaner T) (x : TipsetBlockMessages T) (t : T)
      → x.tipset ≡ some t
      → fs.is_second ≡ true
      → IsConsistent fuel fs
      → (fs' : Filscaner T) × (secod_push api tables format fuel fs x ≡ ok fs') × IsHandled fuel fs'
  unfolding secod_push
  secod_push-IsHandled fuel fs x t e second c =
      let (r, got, valid, size) =
        push_front_total fuel fs.tipsets_cache x t e (omega (arith, c.valid.bounded, c.enough))
          c.valid in
      (
        record fs {
          tipsets_cache = r.0;
          address = suc fs.address;
          safe = append_option r.1 fs.safe;
        },
        rw got refl,
        record { valid = valid; second = second; enough = omega (arith, size, c.enough) },
      )

  handle_secod-IsHandled :
      HasMessages api
      → (fuel : ℕ) (fs : Filscaner T) (last child : T) → fs.is_second ≡ true
      → IsConsistent fuel fs
      → (fs' : Filscaner T) × (handle_secod_appl_tipset api tables format fuel fs last child
          ≡ ok fs')
        × IsHandled fuel fs'
  unfolding handle_secod_appl_tipset
  handle_secod-IsHandled regular fuel fs last child second c =
      elim (Bool-cases (ops.height last == ops.height child)) [
        | inl same ↦ (fs, if_true _ _ _ same, handled fuel fs second c)
        | inr other ↦
            let (fs', e, h) = found (api.chain_get_tipset (ops.parents child)) in
            (fs', if_false _ _ _ other ∙ e, h)
      ]
    where
      built :
          (parent : T) (b : Result (TipsetBlockMessages T))
          → build_persistence_data api tables format fs.address child parent ≡ b
          → NoPanic b
          → (fs' : Filscaner T) × ((elim b [
            | fail e ↦ if is_panic e then fail e else ok fs
            | ok x ↦ secod_push api tables format fuel fs x
          ])
              ≡ ok fs')
            × IsHandled fuel fs'
      built parent (fail f) e n = (fs, if_false (is_panic f) _ _ n, handled fuel fs second c)
      built parent (ok x) e n =
          secod_push-IsHandled fuel fs x parent
            (build_persistence_data-parent api tables format fs.address child parent e).0 second c

      found :
          (o : Option T)
          → (fs' : Filscaner T) × ((elim o [
            | none ↦ ok fs
            | some parent ↦
                elim (build_persistence_data api tables format fs.address child parent) [
                  | fail e ↦ if is_panic e then fail e else ok fs
                  | ok x ↦ secod_push api tables format fuel fs x
                ]
          ])
              ≡ ok fs')
            × IsHandled fuel fs'
      found none = (fs, refl, handled fuel fs second c)
      found (some parent) =
          built parent (build_persistence_data api tables format fs.address child parent) refl
            (build_persistence_data-NoPanic api tables format regular fs.address child parent)

  handle_appl_tipset-IsHandled :
      EqualsSameParents T
      → HasMessages api
      → (top : ℕ) → IsChain api top
      → (fuel : ℕ) (fs : Filscaner T) (child : T) → top < fuel
      → IsConsistent fuel fs
      → (fs.is_second ≡ true) ⊎ (is_some (api.chain_get_tipset (ops.parents child)) ≡ true)
      → (fs' : Filscaner T) × (handle_appl_tipset api tables format fuel fs child ≡ ok fs')
        × IsHandled fuel fs'
  unfolding handle_appl_tipset
  handle_appl_tipset-IsHandled law regular top chain fuel fs child above c answered =
      elim (Bool-cases fs.is_second) [
        | inl second ↦
            let (fs', e, h) =
              known second fs.last_appl_tipset (elim c.started [ inl first ↦ cc | inr e ↦ e ]) in
            (fs', if_true _ _ _ second ∙ e, h)
        | inr first ↦
            let (fs', e, h) =
              first-IsHandled law regular top chain fuel fs child above first c
                (elim answered [ inl second ↦ cc | inr e ↦ e ]) in
            (fs', if_false _ _ _ first ∙ e, h)
      ]
    where
      known :
          fs.is_second ≡ true
          → (o : Option T) → is_some o ≡ true
          → (fs' : Filscaner T) × ((elim o [
            | none ↦ fail nil_dereference
            | some last ↦ handle_secod_appl_tipset api tables format fuel fs last child
          ])
              ≡ ok fs')
            × IsHandled fuel fs'
      known second none e = cc
      known second (some last) e = handle_secod-IsHandled regular fuel fs last child second c

  -- Lotus does not answer one of the two calls of `display_notifi_`.
  abbrev pub unseen : HeadChange T → Bool
  unseen header =
      not (is_some (api.chain_get_tipset (ops.parents header.val)) && is_some api.chain_head)

  -- The first handler is to run, and lotus does not answer its call for the parent.
  abbrev pub orphaned : Bool → HeadChange T → Bool
  orphaned second header =
      header.is_apply && not second && not (is_some (api.chain_get_tipset (ops.parents header.val)))

  pub display_notifi_lem :
      (header : HeadChange T)
      → (unseen header ≡ true)
          × (display_notifi_ api tables format header.val ≡ fail nil_dereference)
        ⊎ (unseen header ≡ false) × (display_notifi_ api tables format header.val ≡ ok tt)
  unfolding display_notifi_
  display_notifi_lem header = go (api.chain_get_tipset (ops.parents header.val)) api.chain_head
    where
      go :
          (parent head : Option T)
          → ◌⊎◌ {0, 0}
              ((not (is_some parent && is_some head) ≡ true)
                × ((deref parent >>= λ p. deref head >>= λ h. ok tt) ≡ fail nil_dereference))
              ((not (is_some parent && is_some head) ≡ false)
                × ((deref parent >>= λ p. deref head >>= λ h. ok tt) ≡ ok tt))
      go none head = inl (refl, refl)
      go (some p) none = inl (refl, refl)
      go (some p) (some h) = inr (refl, refl)

  abbrev pub handled_header : ℕ → Filscaner T → HeadChange T → Result (Filscaner T)
  handled_header fuel fs header =
      if header.is_apply
      then (do
        fs' ← handle_appl_tipset api tables format fuel fs header.val
        ok (record fs' { last_appl_tipset = some header.val }))
      else ok fs

  answered_or_second :
      (apply second answered : Bool)
      → apply ≡ true
      → (apply && not second && not answered) ≡ false
      → (second ≡ true) ⊎ (answered ≡ true)
  answered_or_second false second answered a e = cc
  answered_or_second true true answered a e = inl refl
  answered_or_second true false true a e = inr refl
  answered_or_second true false false a e = cc

  pub handled_header-IsConsistent :
      EqualsSameParents T
      → HasMessages api
      → (top : ℕ) → IsChain api top
      → (fuel : ℕ) (fs : Filscaner T) (header : HeadChange T) → top < fuel
      → IsConsistent fuel fs
      → orphaned fs.is_second header ≡ false
      → (fs' : Filscaner T) × (handled_header fuel fs header ≡ ok fs')
        × IsConsistent fuel fs'
        × (fs'.is_second ≡ (fs.is_second || header.is_apply))
  handled_header-IsConsistent law regular top chain fuel fs header above c fine =
      elim (Bool-cases header.is_apply) [
        | inl apply ↦
            let (fs', e, h) =
              handle_appl_tipset-IsHandled law regular top chain fuel fs header.val above c
                (answered_or_second header.is_apply fs.is_second _ apply fine) in
            (
              record fs' { last_appl_tipset = some header.val },
              if_true _ _ _ apply ∙ rw e refl,
              record {
                valid = h.valid;
                unstarted = inl h.second;
                started = inr refl;
                enough = h.enough;
              },
              ground (arith, h.second, apply),
            )
        | inr other ↦ (fs, if_false _ _ _ other, c, ground (arith, other))
      ]

  pub orphaned_fails :
      (fuel : ℕ) (fs : Filscaner T) (header : HeadChange T)
      → orphaned fs.is_second header ≡ true
      → handled_header fuel fs header ≡ fail nil_dereference
  unfolding handle_appl_tipset handle_first_appl_tipset
  orphaned_fails fuel fs header e =
      let (apply, first, missing) = all_three header.is_apply fs.is_second _ e in
      if_true _ _ _ apply
      ∙ ap (λ r. r >>= applied)
          (if_false _ _ _ first ∙ by_parent (api.chain_get_tipset (ops.parents header.val)) missing)
    where
      applied : Filscaner T → Result (Filscaner T)
      applied fs' = ok (record fs' { last_appl_tipset = some header.val })

      by_parent :
          (o : Option T)
          → is_some o ≡ false
          → (elim o as (λ x. Result (Filscaner T)) [
            | none ↦ fail nil_dereference
            | some parent ↦
                first_filled api tables format
                  (record fs { address = fs.address + fuel })
                  (fall_through api tables format fuel fs.address fs.tipsets_cache header.val
                    parent)
          ])
            ≡ fail nil_dereference
      by_parent none h = refl
      by_parent (some t) h = cc
