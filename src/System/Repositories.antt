-- ===== src/System/Repositories.antt =====
-- The SQL repositories of the two services keep the interfaces of the jobs table, over any lawful session.
use project4_sentinel_ai_scr.Base.{
  String, ◌≡◌, refl, sym, ap, subst, ◌∙◌, ◌⊎◌, inl, inr, Option, none, some,
}
use project4_sentinel_ai_scr.Base.Exec.{Result, ok, err, continue-eq-ok}
use project4_sentinel_ai_scr.Base.Keeps.{Keeps-continue, Keeps-continue_known}
use project4_sentinel_ai_scr.Shared.Job.{Job}
use project4_sentinel_ai_scr.Gateway.UseCase.Effects.{SameRequest}
use project4_sentinel_ai_scr.Gateway.Dependencies.{get_job_repository}
use project4_sentinel_ai_scr.Recovery.Main.{sql_job_repository}
use project4_sentinel_ai_scr.Contract.JobRows.{
  JobModel, JobSession, job_to_model, model_to_job, outcome_of, put, save, get, read_row, write_row,
  update,
}
use project4_sentinel_ai_scr.Contract.JobRows.Sharing.{
  model_to_job-job_to_model, stored_row, assigned_row, assigned-SameRequest,
}
use project4_sentinel_ai_scr.System.Table.{View, SameRows}
use project4_sentinel_ai_scr.System.Additions.{Fits, SavesJobs}
use project4_sentinel_ai_scr.System.Updates.{UpdatesJobs}

abbrev of_result : Result Job → Option Job
of_result (ok job) = some job
of_result (err _) = none

abbrev read_stored : Option JobModel → Option Job
read_stored none = none
read_stored (some model) = of_result (model_to_job model)

read_stored-stored_row : (o : Option Job) → read_stored (stored_row o) ≡ o
read_stored-stored_row none = refl
read_stored-stored_row (some job) = ap of_result (model_to_job-job_to_model job)

stored_row-eq : (a b : Option Job) → stored_row a ≡ stored_row b → a ≡ b
stored_row-eq a b h = sym (read_stored-stored_row a) ∙ ap read_stored h ∙ read_stored-stored_row b

module _ {W : Type 0} (view : View W) (session : JobSession W) where
  open view use {stored}

  abbrev row : W → String → Option JobModel
  row w j = stored_row (stored w j)

  -- The documented behaviour of a session over a table whose rows are those of jobs: a lookup changes no row
  -- and finds what is there, and a commit, whether it returns or raises, writes all or nothing of a unit of
  -- work that is one added row or one changed row of a job.
  pub record IsLawful : Type 0 where
    pub get_rows : (id : String) (w : W) → SameRows view w (session.get id w).1
    pub get_done :
        (id : String) (w v : W) (found : Option JobModel)
        → session.get id w ≡ (ok found, v)
        → found ≡ row w id
    pub add_commit :
        (job : Job) (w : W) (j : String)
        → stored w job.id ≡ none
        → let v = (session.commit (session.add (job_to_model job) w)).1 in
          (row v j ≡ row w j) ⊎ ((j ≡ job.id) × (row v j ≡ some (job_to_model job)))
    pub assign_commit :
        (id : String) (job : Job) (w : W) (j : String)
        → let v = (session.commit (session.assign id (outcome_of job) w)).1 in
          (row v j ≡ row w j) ⊎ ((j ≡ id) × (row v j ≡ assigned_row (outcome_of job) (row w j)))

  abbrev Writes : Job → String → W → W → Type 0
  Writes job j w v = (stored v j ≡ stored w j) ⊎ ((j ≡ job.id) × (stored v j ≡ some job))

  module _ (lawful : IsLawful) where
    added :
        (job : Job) (j : String) (w : W)
        → stored w job.id ≡ none
        → Writes job j w (session.commit (session.add (job_to_model job) w)).1
    unfolding job_to_model
    added job j w absent = elim (lawful.add_commit job w j absent) [
      | inl e ↦ inl (stored_row-eq _ _ e)
      | inr (at, e) ↦ inr (at, stored_row-eq _ (some job) e)
    ]

    changed :
        (old job : Job) (j : String) (w : W)
        → stored w old.id ≡ some old
        → SameRequest old job
        → Writes job j w
            (session.commit (session.assign (job_to_model old).id (outcome_of job) w)).1
    unfolding job_to_model
    changed old job j w there same = elim (lawful.assign_commit old.id job w j) [
      | inl e ↦ inl (stored_row-eq _ _ e)
      | inr (at, e) ↦ inr (
        at ∙ same.0,
        stored_row-eq _ (some job) (
            e
            ∙ ap (λ o. assigned_row (outcome_of job) (stored_row o)) (ap (stored w) at ∙ there)
            ∙ ap some (assigned-SameRequest old job same)),
      )
    ]

    Writes_after :
        (job : Job) (j : String) (w u v : W)
        → SameRows view w u
        → Writes job j u v
        → Writes job j w v
    Writes_after job j w u v same h = elim h [ inl e ↦ inl (e ∙ same j) | inr done ↦ inr done ]

    put-Writes :
        (job : Job) (j : String) (o : Option Job) (w : W)
        → stored w job.id ≡ o
        → Fits o job
        → Writes job j w (session.commit (put session job (stored_row o) w)).1
    put-Writes job j none w there fits = added job j w there
    put-Writes job j (some old) w there fits =
        changed old job j w (ap (stored w) fits.0 ∙ there) fits

    -- Let the session behave as documented. The gateway's SQL repository keeps the interface of the jobs
    -- table: whether a save returns or raises, it leaves every row as it was or writes its own
    -- job, if the row of that is new or of the same request, and a lookup changes nothing.
    pub get_job_repository-SavesJobs : SavesJobs view (get_job_repository session)
    unfolding get_job_repository save get
    get_job_repository-SavesJobs = record {
      save_rows = λ job w j fits.
          Keeps-continue_known (Writes job j w) (session.get job.id w) _
            (inl (lawful.get_rows job.id w j))
            (λ existing v call _.
              let rows = subst (λ x. SameRows view w x.1) call (lawful.get_rows job.id w) in
              Writes_after job j w v _ rows (
                subst (λ o. Writes job j v (session.commit (put session job o v)).1)
                  (sym (lawful.get_done job.id w v existing call))
                  (put-Writes job j (stored w job.id) v (rows job.id) fits)));
      get_rows = λ id w.
          Keeps-continue (SameRows view w) (session.get id w) _ (lawful.get_rows id w) (λ _ _ k. k);
    }

    read_row-stored :
        (o : Option Job) (job : Job)
        → read_row session (stored_row o) ≡ ok (some job)
        → o ≡ some job
    read_row-stored none job h = absurd (cc h)
    read_row-stored (some old) job h =
        let h' : ok (some old) ≡ ok (some job) = rw (model_to_job-job_to_model old) at h in cc h'

    write-Writes :
        (old job : Job) (j : String) (w : W)
        → stored w old.id ≡ some old
        → SameRequest old job
        → Writes job j w (write_row session job (some (job_to_model old)) w).1
    write-Writes old job j w there same = changed old job j w there same

    -- Let the session behave as documented, and rows be stored under their identifiers. The recovery
    -- engine's SQL repository keeps the interface of the jobs table: whether an update returns or
    -- raises, it leaves every row as it was or writes its own job, if that is of the request of the
    -- row, and a lookup changes nothing and gives the job that is stored.
    pub sql_job_repository-UpdatesJobs :
        ((w : W) (j : String) (job : Job) → stored w j ≡ some job → job.id ≡ j)
        → UpdatesJobs view (sql_job_repository session)
    unfolding sql_job_repository update get
    sql_job_repository-UpdatesJobs keyed = record {
      get_rows = λ id w.
          Keeps-continue (SameRows view w) (session.get id w) _ (lawful.get_rows id w) (λ _ _ k. k);
      get_some = λ id w v job h.
          let (model, w₁, got, h₁) = continue-eq-ok (session.get id w) _ h in
          let there =
            read_row-stored (stored w id) job (
              ap (read_row session) (sym (lawful.get_done id w w₁ model got)) ∙ ap (λ x. x.0) h₁) in
          ap (stored w) (keyed w id job there) ∙ there;
      update_rows = λ old job w j there same.
          Keeps-continue_known (Writes job j w) (session.get job.id w) (write_row session job)
            (inl (lawful.get_rows job.id w j))
            (λ model v call _.
              let rows = subst (λ x. SameRows view w x.1) call (lawful.get_rows job.id w) in
              let found = lawful.get_done job.id w v model call ∙ ap stored_row there in
              Writes_after job j w v _ rows (
                subst (λ o. Writes job j v (write_row session job o v).1) (sym found)
                  (write-Writes old job j v (ap (stored v) same.0 ∙ rows job.id ∙ there) same)));
    }
