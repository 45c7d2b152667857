-- ===== src/MinerFeed/Buffer.antt =====
-- What models_update_miner and do_upsert_miners of filscaner/fs_models.go hand to the database.
use filscan_backend.Prelude.{
  Result, true, Written, done, broken, ℕ, zero, suc, ◌+◌, ◌*◌, ◌≤◌, ◌<◌, ◌≡◌, refl, sym, ap, ◌∙◌,
  Option, some, List, [], ◌∷◌, ◌++◌, take, length, ltb, leb, if◌then◌else◌, ok, Bool, false, arith,
  subst, Bool-cases, inl, inr, if_false, >>=-ok,
}
use mathlib.Core.List.{append_assoc, append-nil}
use filscan_backend.MinerFeed.{
  MinerStateAtTipset, Doc, selector, miner, UpsertBuffer, put, front_slots, stamped, emptied,
  do_upsert_miners, buffered, models_update_miner, update_each,
}

-- The documents of some states: each with its selector before it.
abbrev pub pairs : ℕ → List MinerStateAtTipset → List (Option Doc)
pairs now [] = []
pairs now (m ∷ ms) =
    some (selector m.state.miner_addr m.tipset_height) ∷ some (miner (stamped now m)) ∷ pairs now ms

record Puts (i : ℕ) (d : Doc) (slots : List (Option Doc)) : Type 0 where
  pub after : List (Option Doc)
  pub runs : put i d slots ≡ ok after
  pub size : length after ≡ length slots
  pub front : take (suc i) after ≡ take i slots ++ some d ∷ []

put_lem : (i : ℕ) (d : Doc) (slots : List (Option Doc)) → i < length slots → Puts i d slots
put_lem i d [] h = absurd (omega (arith, h))
put_lem zero d (slot ∷ slots) h = record {
  after = some d ∷ slots;
  runs = refl;
  size = refl;
  front = refl;
}
put_lem (suc i) d (slot ∷ slots) h =
    let p = put_lem i d slots (omega (arith, h)) in
    record {
      after = slot ∷ p.after;
      runs = >>=-ok _ p.runs refl;
      size = ap suc p.size;
      front = ap (◌∷◌ slot) p.front;
    }

take_at : {a b : ℕ} → a ≡ b → (slots : List (Option Doc)) → take a slots ≡ take b slots
take_at e slots = ap (λ n. take n slots) e

front_slots_lem :
    (offset : ℕ) (slots : List (Option Doc))
    → offset ≤ length slots
    → front_slots offset slots ≡ ok (take offset slots)
front_slots_lem offset slots h = if_false (ltb (length slots) offset) _ _ (ground arith)

two_taken :
    (i : ℕ) (d e : Doc) (slots : List (Option Doc)) (first : Puts (i * 2) d slots)
    → (next : Puts (i * 2 + 1) e first.after)
    → take ((i + 1) * 2) next.after ≡ take (i * 2) slots ++ some d ∷ some e ∷ []
two_taken i d e slots first next =
    take_at {b = suc (i * 2 + 1)} (omega arith) next.after
    ∙ next.front
    ∙ ap (λ docs. docs ++ some e ∷ [])
        (take_at {b = suc (i * 2)} (omega arith) first.after ∙ first.front)
    ∙ append_assoc (take (i * 2) slots) (some d ∷ []) (some e ∷ [])

-- A buffer with the documents of some states in its first slots.
pub record IsFilled (docs : List (Option Doc)) (fs : UpsertBuffer) : Type 0 where
  pub slots : length fs.to_upsert_miners ≡ fs.to_update_miner_size * 2
  pub front : take (fs.to_update_miner_index * 2) fs.to_upsert_miners ≡ docs

module _ {Db : Type 0} (bulk_upsert : List (Option Doc) → Db → Written Db) (now : ℕ) where
  pub buffered_lem :
      (m : MinerStateAtTipset) (docs : List (Option Doc)) (fs : UpsertBuffer) (db : Db)
      → fs.to_update_miner_index < fs.to_update_miner_size
      → IsFilled docs fs
      → (that : UpsertBuffer) × (buffered bulk_upsert now m ((fs, db), false)
          ≡ ok ((that, db), false))
        × IsFilled (docs ++ pairs now (m ∷ [])) that
        × (that.to_update_miner_size ≡ fs.to_update_miner_size)
        × (that.to_update_miner_index ≡ fs.to_update_miner_index + 1)
  unfolding buffered
  buffered_lem m docs fs db room f =
      let first =
        put_lem (fs.to_update_miner_index * 2) (selector m.state.miner_addr m.tipset_height)
          fs.to_upsert_miners (omega (arith, f.slots)) in
      let next =
        put_lem (fs.to_update_miner_index * 2 + 1) (miner (stamped now m)) first.after
          (omega (arith, f.slots, first.size)) in
      (
        record fs {
          to_upsert_miners = next.after;
          to_update_miner_index = fs.to_update_miner_index + 1;
        },
        >>=-ok _ first.runs (>>=-ok _ next.runs refl),
        record {
          slots = next.size ∙ first.size ∙ f.slots;
          front =
              two_taken fs.to_update_miner_index _ _ fs.to_upsert_miners first next
              ∙ ap (λ front. front ++ pairs now (m ∷ [])) f.front;
        },
        refl,
        refl,
      )

  update_each_lem :
      (ms : List MinerStateAtTipset) (docs : List (Option Doc)) (fs : UpsertBuffer) (db : Db)
      → fs.to_update_miner_index + length ms ≤ fs.to_update_miner_size
      → IsFilled docs fs
      → (that : UpsertBuffer) × (update_each bulk_upsert now ms fs db ≡ ok (that, db))
        × IsFilled (docs ++ pairs now ms) that
        × (that.to_update_miner_size ≡ fs.to_update_miner_size)
        × (that.to_update_miner_index ≡ fs.to_update_miner_index + length ms)
  unfolding update_each models_update_miner
  update_each_lem [] docs fs db room f =
      (fs, refl, subst (λ d. IsFilled d fs) (sym (append-nil docs)) f, refl, omega arith)
  update_each_lem (m ∷ ms) docs fs db room f =
      let (next, runs, filled, size, index) = buffered_lem m docs fs db (omega arith) f in
      let (that, rest, all, size', index') =
        update_each_lem ms (docs ++ pairs now (m ∷ [])) next db (omega arith) filled in
      (
        that,
        >>=-ok _
            (if_false (leb fs.to_update_miner_size fs.to_update_miner_index) _ _ (ground arith)
              ∙ runs)
            rest,
        subst (λ d. IsFilled d that) (append_assoc docs (pairs now (m ∷ [])) (pairs now ms)) all,
        size' ∙ size,
        omega arith,
      )

  pub full_handed :
      (docs : List (Option Doc)) (fs : UpsertBuffer) (db : Db)
      → 1 ≤ fs.to_update_miner_index
      → fs.to_update_miner_index ≤ fs.to_update_miner_size
      → IsFilled docs fs
      → do_upsert_miners bulk_upsert fs db
        ≡ emptied bulk_upsert fs (
            bulk_upsert
              (if leb fs.to_update_miner_size fs.to_update_miner_index then docs else [])
              db)
  unfolding do_upsert_miners
  full_handed docs fs db present room f =
      if_false (leb fs.to_update_miner_index 0) _ _ (ground arith) ∙ >>=-ok _ slots_lem refl
    where
      slots_lem :
          front_slots
            (if leb fs.to_update_miner_size fs.to_update_miner_index
              then fs.to_update_miner_index * 2
              else 0)
            fs.to_upsert_miners
          ≡ ok (if leb fs.to_update_miner_size fs.to_update_miner_index then docs else [])
      slots_lem = elim (Bool-cases (leb fs.to_update_miner_size fs.to_update_miner_index)) [
        | inl full ↦ rw full (
            front_slots_lem (fs.to_update_miner_index * 2) fs.to_upsert_miners
              (omega (arith, f.slots))
            ∙ ap ok f.front)
        | inr part ↦ rw part (front_slots_lem 0 fs.to_upsert_miners (omega arith))
      ]

  -- Of the states, those that do_upsert_miners hands to the database.
  abbrev pub handed : ℕ → List MinerStateAtTipset → List (Option Doc)
  handed size ms = if leb size (length ms) then pairs now ms else []

  emptied_lem :
      (fs : UpsertBuffer) (w : Written Db)
      → emptied bulk_upsert fs w ≡ (elim w as (λ x. Result ((UpsertBuffer × Db) × Bool)) [
        | done db' ↦ ok ((record fs { to_update_miner_index = 0 }, db'), false)
        | broken db' e ↦ ok ((fs, db'), true)
      ])
  emptied_lem fs (done db') = refl
  emptied_lem fs (broken db' e) = refl

  -- States that are added to an empty buffer with room for them are counted and change nothing in the
  -- database. A
  -- do_upsert_miners after them hands all of them over, each behind its selector, where they fill the
  -- buffer; where they do not, it hands over no document. Unless the database reports an error, it
  -- empties the buffer in both cases, so that states that do not fill the buffer are lost.
  pub do_upsert_miners-handed :
      (ms : List MinerStateAtTipset) (fs : UpsertBuffer) (db : Db)
      → fs.to_update_miner_index ≡ 0
      → length fs.to_upsert_miners ≡ fs.to_update_miner_size * 2
      → 1 ≤ length ms
      → length ms ≤ fs.to_update_miner_size
      → (that : UpsertBuffer) × (update_each bulk_upsert now ms fs db ≡ ok (that, db))
        × (do_upsert_miners bulk_upsert that db
            ≡ (elim (bulk_upsert (handed fs.to_update_miner_size ms) db)
                as (λ x. Result ((UpsertBuffer × Db) × Bool)) [
                  | done db' ↦ ok ((record that { to_update_miner_index = 0 }, db'), false)
                  | broken db' e ↦ ok ((that, db'), true)
                ]))
        × (that.to_update_miner_index ≡ length ms)
  do_upsert_miners-handed ms fs db empty slots some_ms room =
      let (that, runs, filled, size, index) =
        update_each_lem ms [] fs db (omega arith)
          record { slots = slots; front = take_at {b = 0} (omega arith) fs.to_upsert_miners } in
      let count : that.to_update_miner_index ≡ length ms = omega arith in
      (
        that,
        runs,
        full_handed (pairs now ms) that db (omega arith) (omega arith) filled
            ∙ ap (λ b. emptied bulk_upsert that (bulk_upsert (if b then pairs now ms else []) db))
                (rw (size, count) refl)
            ∙ emptied_lem that (bulk_upsert (handed fs.to_update_miner_size ms) db),
        count,
      )
