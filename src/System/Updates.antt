-- ===== src/System/Updates.antt =====
-- The one row that the end of a recovery may change in the jobs table.
use project4_sentinel_ai_scr.Base.{
  String, ◌≡◌, refl, sym, ap, ◌∙◌, ◌⊎◌, inl, inr, Option, none, some, All,
}
use project4_sentinel_ai_scr.Base.Dict.{Dict}
use project4_sentinel_ai_scr.Base.Exec.{ok}
use project4_sentinel_ai_scr.Shared.Validator.Rules.{IsFilled}
use project4_sentinel_ai_scr.Shared.Job.{Job, mark_succeeded}
use project4_sentinel_ai_scr.Gateway.UseCase.Effects.{SameRequest}
use project4_sentinel_ai_scr.Recovery.State.{
  RecoveryState, FinalStatus, success, needs_human_review,
}
use project4_sentinel_ai_scr.Recovery.Consumer.{JobRepository, final_job}
use project4_sentinel_ai_scr.System.Table.{
  View, SameRows, Evolves, IsComplete, IsOutcome, unchanged, recovered,
}

final_status-cases :
    (o : Option FinalStatus) → (o ≡ some success) ⊎ (o ≡ some needs_human_review) ⊎ (o ≡ none)
final_status-cases none = inr (inr refl)
final_status-cases (some success) = inl refl
final_status-cases (some needs_human_review) = inr (inl refl)

-- The job that a recovery ends with is of the same request and is an outcome, and it is complete if the data
-- of a success are.
pub final_job-good :
    (job : Job) (t : RecoveryState)
    → (t.final_status ≡ some success
        → (found : Dict String) × (t.recovered_data ≡ some found)
          × All (IsFilled found) job.required_fields)
    → SameRequest job (final_job job t)
      × IsOutcome (final_job job t).status
      × IsComplete (final_job job t)
unfolding final_job mark_succeeded
final_job-good job t full = elim (final_status-cases t.final_status) [
  | inl e ↦
      let (found, there, filled) = full e in
      rw (e, there) ((refl, refl, refl, refl), inl refl, (found, refl, filled))
  | inr (inl e) ↦ rw e ((refl, refl, refl, refl), inr refl, tt)
  | inr (inr e) ↦ rw e ((refl, refl, refl, refl), inr refl, tt)
]

module _ {W : Type 0} (view : View W) (jobs : JobRepository W) where
  open view use {stored}

  -- A repository of which an update, whether it returns or raises, writes nothing or the row of its job, if
  -- that is of the same request, and a lookup changes nothing and gives the job that is stored.
  pub record UpdatesJobs : Type 0 where
    pub get_rows : (id : String) (w : W) → SameRows view w (jobs.get id w).1
    pub get_some :
        (id : String) (w v : W) (job : Job)
        → jobs.get id w ≡ (ok (some job), v)
        → stored w job.id ≡ some job
    pub update_rows :
        (before job : Job) (w : W) (j : String)
        → stored w job.id ≡ some before
        → SameRequest before job
        → let v = (jobs.update job w).1 in
          (stored v j ≡ stored w j) ⊎ ((j ≡ job.id) × (stored v j ≡ some job))

  module _ (table : UpdatesJobs) where
    pub update-Evolves :
        (job job₁ : Job) (w v : W)
        → stored w job.id ≡ some job
        → SameRows view w v
        → SameRequest job job₁
        → IsOutcome job₁.status
        → IsComplete job₁
        → Evolves view w (jobs.update job₁ v).1
    update-Evolves job job₁ w v there rows same outcome complete j =
        elim (table.update_rows job job₁ v j (ap (stored v) (sym same.0) ∙ rows job.id ∙ there)
          same) [
            | inl e ↦ unchanged (e ∙ rows j)
            | inr (at, e) ↦
                recovered job job₁ (ap (stored w) (at ∙ sym same.0) ∙ there) e same outcome complete
          ]
