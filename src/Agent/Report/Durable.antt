-- ===== src/Agent/Report/Durable.antt =====
-- Results that are reported durable are kept somewhere, and others are not taken for it.
use radar_node.Base.{
  ℕ, ◌≡◌, ◌⊎◌, Bool, true, false, String, Option, none, some, List, [], ◌∷◌, ◌++◌, All,
}
use radar_node.Wire.{Result, ResultsResponse, Value}
use radar_node.Store.{Store}
use radar_node.Store.Replay.Rounds.{Settled as IsRecorded}
use radar_node.Agent.Spool.{SpoolEntry}
use radar_node.Agent.Spool.Drain.{Settled}
use radar_node.Agent.Report.{Reporter, Surroundings, SpoolFile, entry_of}

-- The results are in the file of the spool, the newest, or the server answered for the file.
abbrev pub IsSpooled : Surroundings → SpoolEntry → List SpoolEntry → Type 0
IsSpooled x e es =
    ((older : List SpoolEntry) × (es ≡ older ++ e ∷ []))
    ⊎ ((r : ResultsResponse) × ((x.spool_turn e).reply ≡ some r))

module _ (parse_ms : String → Option ℕ) (encodable : List (String × Value) → Bool)
    (x : Surroundings) (results : List Result) where
  -- Where durable results are: in the journal, in the spool or answered for from it, or posted.
  abbrev pub IsDurable : Reporter → Reporter → Type 0
  IsDurable a b =
      ((s : Store) × (b.store ≡ some s) × All (IsRecorded parse_ms encodable s) results)
      ⊎ ((f : SpoolFile) × (es : List SpoolEntry) × (x.file ≡ some f)
          × (b.spool ≡ some es)
          × IsSpooled x (entry_of f results) es)
      ⊎ ((r : ResultsResponse) × (x.post ≡ some r) × (b.posted ≡ a.posted ++ results ∷ []))

  abbrev pub IsReported : Reporter → Reporter × Bool → Type 0
  IsReported a (b, true) = IsDurable a b
  IsReported a (b, false) = (x.post ≡ none) × (b ≡ a)
