-- ===== src/Shared/JobStatus.antt =====
-- sentinel_shared/enums/job_status.py: the life of a Job, with the stored values.
use project4_sentinel_ai_scr.Base.{String, ◌≡◌, refl, Option, none, some, ◌==◌, if◌then◌else◌}

pub data JobStatus : Type 0 where
  pending recovery_pending recovering success failed needs_human_review : JobStatus

-- `status.value`
unfoldable pub value : JobStatus → String
value pending = "pending"
value recovery_pending = "recovery_pending"
value recovering = "recovering"
value success = "success"
value failed = "failed"
value needs_human_review = "needs_human_review"

-- `JobStatus(text)`; `none` is its ValueError
unfoldable pub of_value : String → Option JobStatus
of_value s =
    if s == "pending"
    then some pending
    else if s == "recovery_pending"
    then some recovery_pending
    else if s == "recovering"
    then some recovering
    else if s == "success"
    then some success
    else if s == "failed"
    then some failed
    else if s == "needs_human_review"
    then some needs_human_review
    else none

pub of_value-value : (s : JobStatus) → of_value (value s) ≡ some s
unfolding of_value value
of_value-value pending = refl
of_value-value recovery_pending = refl
of_value-value recovering = refl
of_value-value success = refl
of_value-value failed = refl
of_value-value needs_human_review = refl
