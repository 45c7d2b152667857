-- ===== src/Syncer/Regular.antt =====
-- Where lotus answers with tipsets whose heights fall and with a message for each receipt, filling the
-- cache ends and does not panic.
use filscan_backend.Prelude.{
  ℕ, zero, suc, ◌<◌, ◌≤◌, ◌≡◌, refl, Bool, true, false, not, String, Option, none, some, List, [],
  ◌∷◌, length, ◌==◌, string_eq, if◌then◌else◌, is_panic, Result, ok, fail, key_mismatch, no_blocks,
  api_error, ◌>>=◌, arith,
}
use filscan_backend.Chain.{TipsetOps, BlockHeader}
use filscan_backend.Actors.{ActorTables}
use filscan_backend.BlockMessage.{Receipt, TipsetBlockMessages, receipts_ref, build_models_data}
use filscan_backend.TipsetCache.{FsTipsetCache, full, push_back}
use filscan_backend.Syncer.{
  LotusApi, or_error, get_block_messages, api_tipset_blockmessages_and_receipts,
  build_persistence_data, fall_through,
}
use filscan_backend.Syncer.Genesis.Lowers.{IsChain, IsKnown}

-- A run without a panic, and that ends.
abbrev pub NoPanic : {A : Type 0} → Result A → Type 0
NoPanic (ok a) = Unit
NoPanic (fail e) = is_panic e ≡ false

NoPanic-bind :
    {A B : Type 0} (run : Result A) (next : A → Result B)
    → NoPanic run
    → ((a : A) → run ≡ ok a → NoPanic (next a))
    → NoPanic (run >>= next)
NoPanic-bind (ok a) next h k = k a refl
NoPanic-bind (fail e) next h k = h

or_error-NoPanic : {A : Type 0} (o : Option A) → NoPanic (or_error o)
or_error-NoPanic none = refl
or_error-NoPanic (some a) = tt

or_error-some : {A : Type 0} (o : Option A) {a : A} → or_error o ≡ ok a → o ≡ some a
or_error-some none e = cc
or_error-some (some a) e = cc

receipts_ref-NoPanic :
    (messages : List String) (receipts : List (Option Receipt))
    (ref : List (String × Option Receipt))
    → length receipts ≤ length messages
    → NoPanic (receipts_ref messages receipts ref)
unfolding receipts_ref
receipts_ref-NoPanic messages [] ref h = tt
receipts_ref-NoPanic [] (r ∷ receipts) ref h = absurd (omega (arith, h))
receipts_ref-NoPanic (cid ∷ messages) (r ∷ receipts) ref h =
    receipts_ref-NoPanic messages receipts ((cid, r) ∷ ref) (omega (arith, h))

-- Of a tipset there are no more receipts than messages.
abbrev pub HasMessages : {T : Type 0} → LotusApi T → Type 0
HasMessages api =
    (cid : String) (messages : List String) (receipts : List (Option Receipt))
    → api.parent_messages cid ≡ some messages
    → api.parent_receipts cid ≡ some receipts
    → length receipts ≤ length messages

module _ {T : Type 0} ⦃ops : TipsetOps T⦄ (api : LotusApi T) (tables : ActorTables)
    (format : ℕ → String) (regular : HasMessages api) where
  get_block_messages-NoPanic :
      (blocks : List (String × BlockHeader)) → NoPanic (get_block_messages api blocks)
  unfolding get_block_messages
  get_block_messages-NoPanic [] = tt
  get_block_messages-NoPanic ((cid, header) ∷ blocks) =
      NoPanic-bind (or_error (api.block_messages cid)) _ (or_error-NoPanic (api.block_messages cid))
        (λ ms e.
          NoPanic-bind (get_block_messages api blocks) _ (get_block_messages-NoPanic blocks)
            (λ rest k. tt))

  build_models_data-NoPanic :
      (x : TipsetBlockMessages T) (t : T)
      → x.tipset ≡ some t
      → x.is_cached ≡ false
      → length x.receipts ≤ length x.messages
      → NoPanic (build_models_data tables format x)
  unfolding build_models_data
  build_models_data-NoPanic x t e fresh h =
      rw (fresh, e)
        (NoPanic-bind (receipts_ref x.messages x.receipts []) _
          (receipts_ref-NoPanic x.messages x.receipts [] h) (λ ref k. tt))

  api_tipset-NoPanic :
      (address : ℕ) (tipset : T) (child_cid : String)
      → NoPanic (api_tipset_blockmessages_and_receipts api tables format address tipset child_cid)
  unfolding api_tipset_blockmessages_and_receipts
  api_tipset-NoPanic address tipset child_cid =
      NoPanic-bind (get_block_messages api (api.blocks tipset)) _
        (get_block_messages-NoPanic (api.blocks tipset))
        (λ bs e.
          NoPanic-bind (or_error (api.parent_messages child_cid)) _
            (or_error-NoPanic (api.parent_messages child_cid))
            (λ ms e₁.
              NoPanic-bind (or_error (api.parent_receipts child_cid)) _
                (or_error-NoPanic (api.parent_receipts child_cid))
                (λ rs e₂. build_models_data-NoPanic _ tipset refl refl (
                  regular child_cid ms rs (or_error-some (api.parent_messages child_cid) e₁)
                    (or_error-some (api.parent_receipts child_cid) e₂)))))

  pub build_persistence_data-NoPanic :
      (address : ℕ) (child parent : T)
      → NoPanic (build_persistence_data api tables format address child parent)
  unfolding build_persistence_data
  build_persistence_data-NoPanic address child parent =
      go (ops.key_cids child) (ops.parents child == ops.key parent)
    where
      go :
          (cids : List String) (same : Bool)
          → NoPanic (
              if not same then fail key_mismatch else elim cids [
                | [] ↦ fail no_blocks
                | c ∷ _ ↦ api_tipset_blockmessages_and_receipts api tables format address parent c
              ])
      go cids false = refl
      go [] true = refl
      go (c ∷ cs) true = api_tipset-NoPanic address parent c

  pub fall_through-NoPanic :
      (top fuel address : ℕ) (child parent : T) (fsc : FsTipsetCache T)
      → IsChain api top
      → IsKnown api parent
      → ops.height parent < fuel
      → NoPanic (fall_through api tables format fuel address fsc child parent).1
  unfolding fall_through
  fall_through-NoPanic top zero address child parent fsc chain known h = absurd (omega (arith, h))
  fall_through-NoPanic top (suc fuel) address child parent fsc chain known h =
      go (full fsc) (build_persistence_data api tables format address child parent)
        (build_persistence_data-NoPanic address child parent)
        (api.chain_get_tipset (ops.parents parent)) refl
        (λ fsc' next e.
          fall_through-NoPanic top fuel (suc address) parent next fsc' chain (ops.parents parent, e)
            (omega (arith, h, chain.falling parent next known e)))
    where
      onward : FsTipsetCache T → T → FsTipsetCache T × Result T
      onward fsc' n = fall_through api tables format fuel (suc address) fsc' parent n

      go :
          (is_full : Bool) (built : Result (TipsetBlockMessages T))
          → NoPanic built
          → (next : Option T) → api.chain_get_tipset (ops.parents parent) ≡ next
          → ((fsc' : FsTipsetCache T) (n : T)
              → api.chain_get_tipset (ops.parents parent) ≡ some n
              → NoPanic (onward fsc' n).1)
          → NoPanic
              (elim is_full as (λ b. FsTipsetCache T × Result T) [
                | true ↦ (fsc, ok parent)
                | false ↦ elim built [
                  | fail e ↦ (fsc, fail e)
                  | ok x ↦ elim next [
                    | none ↦ (push_back fsc (some x), fail api_error)
                    | some n ↦ onward (push_back fsc (some x)) n
                  ]
                ]
              ]).1
      go true built b next e ih = tt
      go false (fail f) b next e ih = b
      go false (ok x) b none e ih = refl
      go false (ok x) b (some n) e ih = ih (push_back fsc (some x)) n e
