-- ===== src/Syncer/Genesis/Ends.antt =====
-- That `sync_to_genesis` ends: how many rounds there are, and what it
-- returns.
use filscan_backend.Prelude.{
  ℕ, zero, suc, ◌+◌, ◌*◌, ◌<◌, ◌≤◌, ◌≡◌, refl, ap, Bool, true, false, String, none, List, [], ◌∷◌,
  length, ◌==◌, nat_eq, ◌⊎◌, inl, inr, Result, ok, fail, arith, Fault,
}
use filscan_backend.Chain.{TipsetOps}
use filscan_backend.Actors.{ActorTables}
use filscan_backend.SyncedPath.{FsSyncedTipsetPath, PathStore}
use filscan_backend.Syncer.{LotusApi}
use filscan_backend.Syncer.Genesis.{Collections, Syncing, genesis_round, sync_loop, sync_to_genesis}
use filscan_backend.Syncer.Genesis.Lowers.{
  IsKnown, IsChain, merges_left, Lowers, genesis_round-Lowers,
}

fewer : (top m n h k : ℕ) → m < n → k ≤ top → m * suc top + k < n * suc top + h
fewer top m n h k l b = grind arith

lower : (top m n h k : ℕ) → m ≤ n → k < h → m * suc top + k < n * suc top + h
lower top m n h k l b = grind arith

module _ {D T : Type 0} ⦃ops : TipsetOps T⦄ (api : LotusApi T) (tables : ActorTables)
    (format : ℕ → String) (store : PathStore D) (collections : Collections D) (top : ℕ)
    (chain : IsChain api top) where
  -- The rounds of the loop that go on.
  pub data Reaches : Syncing D T → T → Syncing D T → T → Type 0 where
    here : {st : Syncing D T} {c : T} → Reaches st c st c
    round :
        {st st' last : Syncing D T} {c next end : T}
        → (length (ops.parents_cids c) == 0) ≡ false
        → genesis_round api tables format store collections st c ≡ (st', ok next)
        → Reaches st' next last end
        → Reaches st c last end

  -- The loop ends at a genesis, or with the error of a round.
  abbrev pub IsEnd : Syncing D T → T → Syncing D T × Result T → Type 0
  IsEnd st c r =
      (((length (ops.parents_cids c) == 0) ≡ true) × (r ≡ (st, ok c)))
      ⊎ (((length (ops.parents_cids c) == 0) ≡ false)
          × ((e : Fault) × (st' : Syncing D T) × (genesis_round api tables format store collections
                  st c
                ≡ (st', fail e))
              × (r ≡ (st', fail e))))

  -- How many rounds there can be.
  abbrev pub rounds_left : List FsSyncedTipsetPath → T → ℕ
  rounds_left l c = merges_left l * suc top + ops.height c

  sync_loop-IsEnd :
      (fuel : ℕ) (st : Syncing D T) (child : T)
      → IsKnown api child
      → rounds_left st.paths child < fuel
      → (last : Syncing D T) × (end : T) × Reaches st child last end
        × IsEnd last end (sync_loop api tables format store collections fuel st child)
  unfolding sync_loop
  sync_loop-IsEnd zero st child k f = absurd (ground arith)
  sync_loop-IsEnd (suc fuel) st child k f =
      go (length (ops.parents_cids child) == 0) refl
        (genesis_round api tables format store collections st child) refl
        (genesis_round-Lowers api tables format store collections top chain st child k)
        (sync_loop-IsEnd fuel)
    where
      go :
          (b : Bool)
          → (length (ops.parents_cids child) == 0) ≡ b
          → (r : Syncing D T × Result T)
          → genesis_round api tables format store collections st child ≡ r
          → Lowers api tables format store collections top chain
              (merges_left st.paths)
              (ops.height child)
              r
          → ((st' : Syncing D T) (next : T)
              → IsKnown api next
              → rounds_left st'.paths next < fuel
              → (last : Syncing D T) × (end : T) × Reaches st' next last end
                × IsEnd last end (sync_loop api tables format store collections fuel st' next))
          → (last : Syncing D T) × (end : T) × Reaches st child last end
            × IsEnd last end (elim b as (λ p. Syncing D T × Result T) [
              | true ↦ (st, ok child)
              | false ↦ elim r.1 as (λ p. Syncing D T × Result T) [
                | fail e ↦ (r.0, fail e)
                | ok next ↦ sync_loop api tables format store collections fuel r.0 next
              ]
            ])
      go true e r g l ih = (st, child, here, inl (e, refl))
      go false e (st', fail fault) g l ih = (st, child, here, inr (e, (fault, st', g, refl)))
      go false e (st', ok next) g l ih =
          let (last, end, reached, ends) = ih st' next l.0 (less l) in
          (last, end, round e g reached, ends)
        where
          less :
              Lowers api tables format store collections top chain
                (merges_left st.paths)
                (ops.height child)
                (st', ok next)
              → rounds_left st'.paths next < fuel
          less (known, inl m) = omega (
            arith,
            f,
            fewer top (merges_left st'.paths) (merges_left st.paths) (ops.height child)
                (ops.height next) m (chain.bounded next known),
          )
          less (known, inr (m, k)) = omega (
            arith,
            f,
            lower top (merges_left st'.paths) (merges_left st.paths) (ops.height child)
                (ops.height next) m k,
          )

  abbrev pub start_of : D → List FsSyncedTipsetPath → ℕ → Syncing D T
  start_of db paths address = record {
    db = db;
    paths = paths;
    pending = [];
    notified = [];
    address = address;
  }

  -- From a tipset of lotus's on, where lotus answers with lower parents, and with as many rounds of fuel as there can be (for each stored path that
  -- can be merged once the greatest height, and the height of the start), `sync_to_genesis` reaches a
  -- tipset with no parents and returns it, after it has asked for the miners to be written; or a round
  -- on the way returns an error, which it returns.
  pub sync_to_genesis-IsEnd :
      (fuel : ℕ) (db : D) (paths : List FsSyncedTipsetPath) (address : ℕ) (from : T)
      → IsKnown api from
      → rounds_left paths from < fuel
      → (last : Syncing D T) × (end : T) × Reaches (start_of db paths address) from last end
        × ((((length (ops.parents_cids end) == 0) ≡ true)
              × (sync_to_genesis api tables format store collections fuel db paths address from
                  ≡ (record last { notified = none ∷ last.notified }, ok end)))
            ⊎ ((e : Fault) × (st' : Syncing D T) × (genesis_round api tables format store
                    collections last end
                  ≡ (st', fail e))
                × (sync_to_genesis api tables format store collections fuel db paths address from
                    ≡ (st', fail e))))
  unfolding sync_to_genesis
  sync_to_genesis-IsEnd fuel db paths address from k f =
      finish (sync_loop-IsEnd fuel (start_of db paths address) from k f)
    where
      loop : Syncing D T × Result T
      loop = sync_loop api tables format store collections fuel (start_of db paths address) from

      answer : Syncing D T × Result T → Syncing D T × Result T
      answer r = elim r.1 as (λ x. Syncing D T × Result T) [
        | fail e ↦ (r.0, fail e)
        | ok child ↦ (record r.0 { notified = none ∷ r.0.notified }, ok child)
      ]

      Finished : Syncing D T × Result T → Type 0
      Finished run =
          (last : Syncing D T) × (end : T) × Reaches (start_of db paths address) from last end
          × ((((length (ops.parents_cids end) == 0) ≡ true)
                × (run ≡ (record last { notified = none ∷ last.notified }, ok end)))
              ⊎ ((e : Fault) × (st' : Syncing D T) × (genesis_round api tables format store
                      collections last end
                    ≡ (st', fail e))
                  × (run ≡ (st', fail e))))

      finish :
          (last : Syncing D T) × (end : T) × Reaches (start_of db paths address) from last end
            × IsEnd last end loop
          → Finished
              (sync_to_genesis api tables format store collections fuel db paths address from)
      finish (last, end, reached, inl (genesis, e)) =
          (last, end, reached, inl (genesis, ap answer e))
      finish (last, end, reached, inr (_, (fault, st', g, e))) =
          (last, end, reached, inr (fault, st', g, ap answer e))
