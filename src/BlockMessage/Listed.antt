-- ===== src/BlockMessage/Listed.antt =====
-- `Tipset_block_message_list` of filscaner/fs_block_message.go: the data of several tipsets.
use filscan_backend.Prelude.{String, List, [], ◌∷◌, ◌++◌, Result, ok, deref, ◌>>=◌, ℕ}
use filscan_backend.Chain.{TipsetOps, FilscanBlock, FilscanMsg}
use filscan_backend.Actors.{ActorTables}
use filscan_backend.BlockMessage.{FilscanTipset, TipsetBlockMessages, build_models_data}

-- `miners` has the addresses of each tipset.
pub record FsModelsData : Type 0 where
  pub tipsets : List FilscanTipset
  pub blocks : List FilscanBlock
  pub messages : List FilscanMsg
  pub miners : List (List String)

-- A nil `fs_tipset` is a fault here; the code dereferences it when it is written.
unfoldable pub list_models_data :
    {T : Type 0} ⦃ops : TipsetOps T⦄
    → ActorTables
    → (ℕ → String)
    → List (TipsetBlockMessages T)
    → Result FsModelsData
list_models_data tables format [] =
    ok (record { tipsets = []; blocks = []; messages = []; miners = [] })
list_models_data tables format (tpst_blms ∷ l) = do
  built ← build_models_data tables format tpst_blms
  tipset ← deref built.fs_tipset
  rest ← list_models_data tables format l
  ok (record {
    tipsets = tipset ∷ rest.tipsets;
    blocks = built.fs_blocks ++ rest.blocks;
    messages = built.fs_msgs ++ rest.messages;
    miners = built.fs_miners ∷ rest.miners;
  })
