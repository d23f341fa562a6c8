-- ===== src/Gateway/Doubles.antt =====
-- The gateway's doubles for its ports: api_gateway/infrastructure/in_memory_job_repository.py,
-- fake_recovery_queue.py and fake_extraction_service.py. Their own state is the world.
use project4_sentinel_ai_scr.Base.{String, List, [], ◌∷◌, ◌++◌}
use project4_sentinel_ai_scr.Base.Dict.{Dict, lookup, insert}
use project4_sentinel_ai_scr.Base.Exec.{ok, pure}
use project4_sentinel_ai_scr.Shared.Job.{Job}
use project4_sentinel_ai_scr.Gateway.Ports.{
  ExtractionResult, ExtractionService, JobRepository, RecoveryQueue,
}

unfoldable pub in_memory_job_repository : JobRepository (Dict Job)
in_memory_job_repository = record {
  save = λ job jobs. (ok tt, insert job.id job jobs);
  get = λ job_id jobs. (ok (lookup job_id jobs), jobs);
}

-- `enqueued_job_ids`
unfoldable pub fake_recovery_queue : RecoveryQueue (List String)
fake_recovery_queue = record { enqueue = λ job_id ids. (ok tt, ids ++ (job_id ∷ [])) }

unfoldable pub fake_extraction_service : {W : Type 0} → ExtractionResult → ExtractionService W
fake_extraction_service result = record { extract = λ url domain required_fields. pure result }
