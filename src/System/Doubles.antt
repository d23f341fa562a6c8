-- ===== src/System/Doubles.antt =====
-- The gateway's job repository in memory keeps the interface that its SQL repository keeps.
use project4_sentinel_ai_scr.Base.{◌==◌, eq_iff, refl, sym, ◌∙◌, inl, inr, Bool-cases}
use project4_sentinel_ai_scr.Base.Dict.{Dict, lookup, lookup-insert}
use project4_sentinel_ai_scr.Shared.Job.{Job}
use project4_sentinel_ai_scr.Gateway.Doubles.{in_memory_job_repository}
use project4_sentinel_ai_scr.System.Table.{View}
use project4_sentinel_ai_scr.System.Additions.{SavesJobs}

abbrev pub in_memory : View (Dict Job)
in_memory = record { stored = λ jobs j. lookup j jobs }

-- A save in memory writes the row of its job, and a lookup changes nothing.
pub in_memory_job_repository-SavesJobs : SavesJobs in_memory in_memory_job_repository
unfolding in_memory_job_repository
in_memory_job_repository-SavesJobs = record {
  save_rows = λ job jobs j fits. elim (Bool-cases (job.id == j)) [
    | inl e ↦ inr (sym ((eq_iff job.id j).0 e), lookup-insert job.id j job jobs ∙ rw e refl)
    | inr e ↦ inl (lookup-insert job.id j job jobs ∙ rw e refl)
  ];
  get_rows = λ id jobs j. refl;
}
