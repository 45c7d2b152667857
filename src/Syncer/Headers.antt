-- ===== src/Syncer/Headers.antt =====
-- `handle_new_headers` of filscaner/fs_loops.go keeps the state of the scanner consistent.
use filscan_backend.Prelude.{
  ℕ, suc, ◌<◌, ◌≡◌, refl, sym, ap, Bool, true, false, ◌||◌, String, Option, none, some, List, [],
  ◌∷◌, nat_eq, string_eq, Bool-cases, ok, fail, nil_dereference, ◌>>=◌, ◌⊎◌, inl, inr,
}
use filscan_backend.Chain.{TipsetOps}
use filscan_backend.Actors.{ActorTables}
use filscan_backend.Syncer.{LotusApi, HeadChange, Filscaner, handle_new_headers}
use filscan_backend.Syncer.Genesis.Lowers.{IsChain}
use filscan_backend.Syncer.Regular.{HasMessages}
use filscan_backend.Syncer.Cached.{EqualsSameParents}
use filscan_backend.Syncer.Handlers.{
  IsConsistent, unseen, orphaned, display_notifi_lem, handled_header-IsConsistent, orphaned_fails,
}

module _ {T : Type 0} ⦃ops : TipsetOps T⦄ (lotus : ℕ → LotusApi T) (tables : ActorTables)
    (format : ℕ → String) where
  -- The first call that lotus does not answer where the code needs it: of `display_notifi_`, or of the
  -- first handler. `second` says whether that handler has run.
  pub unanswered : Bool → ℕ → List (Option (HeadChange T)) → Bool
  unanswered second now [] = false
  unanswered second now (none ∷ headers) = unanswered second now headers
  unanswered second now (some header ∷ headers) =
      unseen (lotus now) tables format header
      || orphaned (lotus (suc now)) tables format second header
      || unanswered (second || header.is_apply) (suc (suc now)) headers

  -- Whatever headers come and whenever lotus changes its answers: while equal tipsets have the same
  -- parents, each answer is one of tipsets up to a height below the fuel whose parents are lower, and no
  -- tipset has more receipts than messages, `handle_new_headers` from a consistent state handles all
  -- headers and leaves a consistent state, that is, the cache is a chain within its size; unless lotus
  -- leaves a call of `display_notifi_`, or the call of the first handler, without an answer, and then it
  -- ends in a nil dereference.
  pub handle_new_headers_lem :
      EqualsSameParents T
      → ((n : ℕ) → HasMessages (lotus n))
      → (top : ℕ) → ((n : ℕ) → IsChain (lotus n) top)
      → (fuel : ℕ) → top < fuel
      → (now : ℕ) (fs : Filscaner T) (headers : List (Option (HeadChange T))) → IsConsistent fuel fs
      → (unanswered fs.is_second now headers ≡ true)
          × (handle_new_headers lotus tables format fuel now fs headers ≡ fail nil_dereference)
        ⊎ (unanswered fs.is_second now headers ≡ false)
          × ((fs' : Filscaner T) × (handle_new_headers lotus tables format fuel now fs headers
                ≡ ok fs')
              × IsConsistent fuel fs')
  unfolding handle_new_headers unanswered
  handle_new_headers_lem law regular top chain fuel above now fs [] c = inr (refl, (fs, refl, c))
  handle_new_headers_lem law regular top chain fuel above now fs (none ∷ headers) c =
      handle_new_headers_lem law regular top chain fuel above now fs headers c
  handle_new_headers_lem law regular top chain fuel above now fs (some header ∷ headers) c =
      elim (display_notifi_lem (lotus now) tables format header) [
        | inl (u, e) ↦ inl (rw u refl, rw e refl)
        | inr (u, e) ↦
            elim (Bool-cases (orphaned (lotus (suc now)) tables format fs.is_second header)) [
              | inl o ↦ inl (
                rw (u, o) refl,
                rw e (
                    ap
                      (λ r. r >>= (λ fs'.
                        handle_new_headers lotus tables format fuel (suc (suc now)) fs' headers))
                      (orphaned_fails (lotus (suc now)) tables format fuel fs header o)),
              )
              | inr o ↦
                  let (fs', e', c', second) =
                    handled_header-IsConsistent (lotus (suc now)) tables format law
                      (regular (suc now)) top (chain (suc now)) fuel fs header above c o in
                  rw (u, o)
                    (rw e (
                      rw e' (
                        rw (sym second) (
                          handle_new_headers_lem law regular top chain fuel above (suc (suc now))
                            fs' headers c'))))
            ]
      ]
