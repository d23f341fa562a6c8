-- ===== src/Gateway/Ports.antt =====
-- api_gateway/domain/ports and dtos: what the use case asks of the Worker, of the jobs table and of the
-- recovery queue. The ports act on a world `W` and may raise.
use project4_sentinel_ai_scr.Base.{String, Bool, Option, List}
use project4_sentinel_ai_scr.Base.Dict.{Dict}
use project4_sentinel_ai_scr.Base.Exec.{Exec}
use project4_sentinel_ai_scr.Shared.FailureReason.{FailureReason}
use project4_sentinel_ai_scr.Shared.Job.{Job}

pub record ExtractionResult : Type 0 where
  pub success : Bool
  pub extracted : Dict String  -- the source's `data`
  pub failure_reason : Option FailureReason

pub record ExtractionService (W : Type 0) : Type 0 where
  pub extract : String → String → List String → Exec W ExtractionResult

pub record JobRepository (W : Type 0) : Type 0 where
  pub save : Job → Exec W (Unit {0})
  pub get : String → Exec W (Option Job)

pub record RecoveryQueue (W : Type 0) : Type 0 where
  pub enqueue : String → Exec W (Unit {0})
