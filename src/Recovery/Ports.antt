-- ===== src/Recovery/Ports.antt =====
-- recovery_engine/domain/ports, value_objects.py and dtos: what the graph asks of the model that
-- proposes selectors and of the Extraction Worker. The ports act on a world `W` and may raise.
use project4_sentinel_ai_scr.Base.{String, Bool, Option, List}
use project4_sentinel_ai_scr.Base.Dict.{Dict}
use project4_sentinel_ai_scr.Base.Exec.{Exec}
use project4_sentinel_ai_scr.Shared.FailureReason.{FailureReason}
use project4_sentinel_ai_scr.Recovery.State.{FieldType}

pub record SelectorProposal : Type 0 where
  pub is_confident : Bool
  pub selectors : Dict String

pub record WorkerExtractionResult : Type 0 where
  pub success : Bool
  pub extracted : Dict String  -- the source's `data`
  pub failure_reason : Option FailureReason

pub record RecoveryEnginePort (W : Type 0) : Type 0 where
  pub propose_selectors : String → Dict FieldType → List String → Exec W SelectorProposal

pub record WorkerServicePort (W : Type 0) : Type 0 where
  pub capture_screenshot : String → Exec W String
  pub validate_selectors :
      String → String → List String → Dict String → Exec W WorkerExtractionResult
  pub save_approved_selector : String → String → String → Exec W (Unit {0})
