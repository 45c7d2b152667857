-- ===== src/BlockMessage/Built.antt =====
-- What `build_models_data` makes of a tipset's messages.
use filscan_backend.Prelude.{
  ℕ, ◌≤◌, ◌≡◌, refl, ap, sym, ◌∙◌, Bool, true, false, ◌&&◌, ◌||◌, String, Option, none, some, List,
  [], ◌∷◌, ◌++◌, map, ◌==◌, nat_eq, string_eq, if◌then◌else◌, length, flat_map, ok, deref,
  >>=-eq-ok, ok-injective, if_true, if_false, arith, Bool-cases, inl, inr, ==_iff,
}
use mathlib.Core.List.{append_assoc, append-nil}
use filscan_backend.Chain.{TipsetOps, FilscanMsg}
use filscan_backend.Actors.{ActorTables}
use filscan_backend.BlockMessage.{
  TipsetBlockMessages, BlockMessage, Receipt, to_fil_str, to_fs_tipset, receipts_ref, receipt_of,
  add_miner, miners_of, build_block, build_loop, build_models_data,
}

miners_of-append :
    (xs ys : List FilscanMsg) (miners : List String)
    → miners_of ys (miners_of xs miners) ≡ miners_of (xs ++ ys) miners
unfolding miners_of
miners_of-append [] ys miners = refl
miners_of-append (x ∷ xs) ys miners = miners_of-append xs ys _

module _ {T : Type 0} (tables : ActorTables) (reward : String)
    (ref : List (String × Option Receipt)) where
  abbrev pub loop : List BlockMessage → TipsetBlockMessages T → TipsetBlockMessages T
  loop = build_loop tables reward ref

  build_loop_lists :
      (bs : List BlockMessage) (self : TipsetBlockMessages T)
      → let made = map (build_block tables reward ref) bs in
        ((loop bs self).fs_block_message ≡ self.fs_block_message ++ made)
        × ((loop bs self).fs_blocks ≡ self.fs_blocks ++ map (λ b. b.block) made)
        × ((loop bs self).fs_msgs ≡ self.fs_msgs ++ flat_map (λ b. b.msg) made)
        × ((loop bs self).fs_miners ≡ miners_of (flat_map (λ b. b.msg) made) self.fs_miners)
        × ((loop bs self).tipset ≡ self.tipset)
  unfolding build_loop
  build_loop_lists [] self =
      (sym (append-nil _), sym (append-nil _), sym (append-nil _), unfold miners_of in refl, refl)
  build_loop_lists (b ∷ bs) self =
      let made = build_block tables reward ref b in
      let next : TipsetBlockMessages T = record self {
        fs_blocks = self.fs_blocks ++ made.block ∷ [];
        fs_msgs = self.fs_msgs ++ made.msg;
        fs_miners = miners_of made.msg self.fs_miners;
        fs_block_message = self.fs_block_message ++ made ∷ [];
      } in
      let (pairs, blocks, msgs, miners, same) = build_loop_lists bs next in
      (
        pairs ∙ append_assoc self.fs_block_message (made ∷ []) _,
        blocks ∙ append_assoc self.fs_blocks (made.block ∷ []) _,
        msgs ∙ append_assoc self.fs_msgs made.msg _,
        miners ∙ miners_of-append made.msg _ self.fs_miners,
        same,
      )

build_loop-address :
    {T : Type 0} (tables : ActorTables) (reward : String) (ref : List (String × Option Receipt))
    (bs : List BlockMessage) (self : TipsetBlockMessages T)
    → (build_loop tables reward ref bs self).address ≡ self.address
unfolding build_loop
build_loop-address tables reward ref [] self = refl
build_loop-address tables reward ref (b ∷ bs) self = build_loop-address tables reward ref bs _

-- A message that makes its receiver a miner to be refreshed.
abbrev pub names_miner : String → FilscanMsg → Bool
names_miner miner m = m.actor_name == "StorageMinerActor" && m.to == miner

abbrev pub any {ℓ} : {A : Type ℓ} → (A → Bool) → List A → Bool
any p [] = false
any p (x ∷ xs) = p x || any p xs

abbrev pub listed : String → List String → Bool
listed miner = any (λ x. x == miner)

listed-add_miner :
    (a miner : String) (l : List String) → listed a (add_miner miner l) ≡ (miner == a || listed a l)
unfolding add_miner
listed-add_miner a miner [] = ground arith
listed-add_miner a miner (x ∷ l) = ground (arith, listed-add_miner a miner l, ==_iff x miner)

listed-miners_of :
    (a : String) (ms : List FilscanMsg) (l : List String)
    → listed a (miners_of ms l) ≡ (listed a l || any (names_miner a) ms)
unfolding miners_of
listed-miners_of a [] l = ground arith
listed-miners_of a (m ∷ ms) l = ground (
  arith,
  listed-miners_of a ms l,
  listed-miners_of a ms (add_miner m.to l),
  listed-add_miner a m.to l,
)

module _ {T : Type 0} ⦃ops : TipsetOps T⦄ (tables : ActorTables) (format : ℕ → String)
    (self built : TipsetBlockMessages T) where
  -- What a first, successful call makes.
  abbrev Made : Type 0
  Made =
      (ref : List (String × Option Receipt)) × (t : T) × (receipts_ref self.messages self.receipts
          []
        ≡ ok ref)
      × (self.tipset ≡ some t)
      × ((record (build_loop tables (to_fil_str format self.block_rwds) ref self.block_msgs
            (record self { fs_blocks = []; fs_msgs = []; fs_miners = []; fs_block_message = [] })) {
              is_cached = true;
              fs_tipset = some (to_fs_tipset t);
            })
          ≡ built)

  build_models_data-Made :
      self.is_cached ≡ false → build_models_data tables format self ≡ ok built → Made
  unfolding build_models_data
  build_models_data-Made fresh e =
      let e' = sym (if_false self.is_cached _ _ fresh) ∙ e in
      let (ref, got, more) = >>=-eq-ok (receipts_ref self.messages self.receipts []) _ e' in
      let (t, found, done) = >>=-eq-ok (deref self.tipset) _ more in
      (ref, t, got, ground arith, ok-injective done)

  -- A second `build_models_data` returns what the first one returned, and changes nothing.
  pub build_models_data_twice :
      build_models_data tables format self ≡ ok built
      → build_models_data tables format built ≡ ok built
  unfolding build_models_data
  build_models_data_twice e = elim (Bool-cases self.is_cached) [
    | inl cached ↦
        let same = ok-injective (sym (if_true self.is_cached _ _ cached) ∙ e) in
        if_true built.is_cached _ _
          (ap (λ (x : TipsetBlockMessages T). x.is_cached) (sym same) ∙ cached)
    | inr fresh ↦
        let (_, _, _, _, done) = build_models_data-Made fresh e in
        if_true built.is_cached _ _ (sym (ap (λ (x : TipsetBlockMessages T). x.is_cached) done))
  ]

  -- After `build_models_data` on an object not yet cached, the blocks and the messages are those of the
  -- pairs of a block and its messages, in the same order; and an address is among the miners exactly if
  -- one of the messages is for a storage miner at that address. The tipset is the same.
  pub build_models_data_lists :
      self.is_cached ≡ false
      → build_models_data tables format self ≡ ok built
      → (built.fs_blocks ≡ map (λ b. b.block) built.fs_block_message)
        × (built.fs_msgs ≡ flat_map (λ b. b.msg) built.fs_block_message)
        × ((miner : String) → listed miner built.fs_miners ≡ any (names_miner miner) built.fs_msgs)
        × (built.tipset ≡ self.tipset)
  build_models_data_lists fresh e =
      let (ref, t, got, found, done) = build_models_data-Made fresh e in
      let empty : TipsetBlockMessages T = record self {
        fs_blocks = [];
        fs_msgs = [];
        fs_miners = [];
        fs_block_message = [];
      } in
      let (pairs, blocks, msgs, miners, same) =
        build_loop_lists tables (to_fil_str format self.block_rwds) ref self.block_msgs empty in
      (
        sym (ap (λ (x : TipsetBlockMessages T). x.fs_blocks) done)
            ∙ blocks
            ∙ ap (map (λ b. b.block))
                (sym pairs ∙ ap (λ (x : TipsetBlockMessages T). x.fs_block_message) done),
        sym (ap (λ (x : TipsetBlockMessages T). x.fs_msgs) done)
            ∙ msgs
            ∙ ap (flat_map (λ b. b.msg))
                (sym pairs ∙ ap (λ (x : TipsetBlockMessages T). x.fs_block_message) done),
        (λ miner.
            ap (listed miner) (sym (ap (λ (x : TipsetBlockMessages T). x.fs_miners) done) ∙ miners)
            ∙ listed-miners_of miner _ []
            ∙ ap (any (names_miner miner))
                (sym msgs ∙ ap (λ (x : TipsetBlockMessages T). x.fs_msgs) done)),
        sym (ap (λ (x : TipsetBlockMessages T). x.tipset) done) ∙ same,
      )

  pub build_models_data-address :
      self.is_cached ≡ false
      → build_models_data tables format self ≡ ok built
      → built.address ≡ self.address
  build_models_data-address fresh e =
      let (ref, t, got, found, done) = build_models_data-Made fresh e in
      sym (ap (λ (x : TipsetBlockMessages T). x.address) done)
      ∙ build_loop-address tables (to_fil_str format self.block_rwds) ref self.block_msgs _

-- The receipts of a tipset: a later one of the same message wins.
abbrev pub last_receipt : String → List String → List (Option Receipt) → Option (Option Receipt)
last_receipt cid [] rs = none
last_receipt cid (m ∷ ms) [] = none
last_receipt cid (m ∷ ms) (r ∷ rs) = elim (last_receipt cid ms rs) [
  | some later ↦ some later
  | none ↦ if m == cid then some r else none
]

abbrev or_else {ℓ} : {A : Type ℓ} → Option (Option A) → Option A → Option A
or_else none d = d
or_else (some o) d = o

receipts_ref_from :
    (ms : List String) (rs : List (Option Receipt)) (old : List (String × Option Receipt))
    → length rs ≤ length ms
    → (ref : List (String × Option Receipt)) × (receipts_ref ms rs old ≡ ok ref)
      × ((cid : String)
          → receipt_of cid ref ≡ or_else (last_receipt cid ms rs) (receipt_of cid old))
unfolding receipts_ref receipt_of
receipts_ref_from [] [] old h = (old, refl, λ cid. refl)
receipts_ref_from (m ∷ ms) [] old h = (old, refl, λ cid. refl)
receipts_ref_from [] (r ∷ rs) old h = absurd (omega arith)
receipts_ref_from (m ∷ ms) (r ∷ rs) old h =
    let (ref, got, found) = receipts_ref_from ms rs ((m, r) ∷ old) (omega arith) in
    (ref, got, λ cid. found cid ∙ ground arith)

-- With at most as many receipts as messages `receipts_ref` does not fail, and gives each message
-- identifier its last receipt, or none if that is nil or there is none.
pub receipts_ref-last_receipt :
    (ms : List String) (rs : List (Option Receipt))
    → length rs ≤ length ms
    → (ref : List (String × Option Receipt)) × (receipts_ref ms rs [] ≡ ok ref)
      × ((cid : String) → receipt_of cid ref ≡ or_else (last_receipt cid ms rs) none)
unfolding receipt_of
receipts_ref-last_receipt ms rs h = receipts_ref_from ms rs [] h
