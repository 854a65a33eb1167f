-- ===== src/Promote/Gate/Outcome.antt =====
-- What a run of the gate that exits with 0 leaves at the champion's path.
use edgesense_ai.Prelude.{◌≡◌, Option, none}
use edgesense_ai.Python.Error.{ok}
use edgesense_ai.Python.Json.{Content}
use edgesense_ai.Python.Format.{Format}
use edgesense_ai.Python.Files.{Fs}
use edgesense_ai.Signing.{Crypto}
use edgesense_ai.Signing.Keys.{load_private_key}
use edgesense_ai.Manifest.Save.{Host}
use edgesense_ai.Manifest.Save.Pair.{Holds}
use edgesense_ai.Manifest.Save.Publication.{Saved, Visible}
use edgesense_ai.Scoring.{Bundle}
use edgesense_ai.Promote.Judge.{Calls, Arguments}
use edgesense_ai.Promote.Gate.{pickle}

module _ {F P Key PublicKey : Type 0} (c : Crypto F Key PublicKey) (h : Host F) (fmt : Format F)
    (calls : Calls F P) (args : Arguments F) where
  module _ (key : Option Key) (old_artifact old_signature : Option (Content F)) where
    abbrev ChampionSaved : Bundle F P → Fs (Content F) → Type 0
    ChampionSaved b =
        Saved c (pickle c h fmt calls args) h b args.champion_path old_artifact old_signature key

    -- The champion is as before the run, and the key can be loaded.
    abbrev pub Ready : Fs (Content F) → Type 0
    Ready fs =
        Holds args.champion_path old_artifact old_signature fs
        × (load_private_key c h.env fs none ≡ ok key)

    abbrev SeenByReaders : Bundle F P → Fs (Content F) → Type 0
    SeenByReaders b =
        Visible c (pickle c h fmt calls args) h b args.champion_path old_artifact old_signature key
