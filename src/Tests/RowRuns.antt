-- ===== src/Tests/RowRuns.antt =====
-- A jobs table in memory, with a unit of work of one change.
use project4_sentinel_ai_scr.Base.{
  String, ◌==◌, eq_refl, eq_iff, ◌≡◌, refl, sym, ap, ◌∙◌, inl, inr, Option, none, some, [], ◌∷◌,
  Bool-cases, if◌then◌else◌,
}
use project4_sentinel_ai_scr.Base.Exec.{ok, ok-eq-ok}
use project4_sentinel_ai_scr.Shared.JobStatus
use project4_sentinel_ai_scr.Shared.Job.{Job, create, mark_recovery_pending, mark_succeeded}
use project4_sentinel_ai_scr.Recovery.State.{RecoveryState, success, valid, str}
use project4_sentinel_ai_scr.Recovery.Consumer.{final_job}
use project4_sentinel_ai_scr.Contract.JobRows.{
  JobModel, Outcome, JobSession, job_to_model, model_to_job, outcome_of, save, get, update,
}
use project4_sentinel_ai_scr.Contract.JobRows.Sharing.{
  View, IsLawful, assigned_row, get-save, get-update,
}

data Change : Type 0 where
  no_change : Change
  adds : JobModel → Change
  assigns : String → Outcome → Change

record World : Type 0 where
  rows : String → Option JobModel
  change : Change

abbrev with_id : String → Option JobModel → Option JobModel
with_id id none = none
with_id id (some model) = if model.id == id then some model else none

abbrev applied : Change → (String → Option JobModel) → String → Option JobModel
applied no_change rows j = rows j
applied (adds model) rows j = if model.id == j then some model else rows j
applied (assigns id o) rows j = if id == j then assigned_row o (rows j) else rows j

abbrev session : JobSession World
session = record {
  get = λ id w. (ok (with_id id (w.rows id)), w);
  add = λ model w. record w { change = adds model };
  assign = λ id o w. record w { change = assigns id o };
  commit = λ w. (ok tt, record { rows = applied w.change w.rows; change = no_change });
}

abbrev view : View World
view = record { row = λ w id. with_id id (w.rows id) }

with_id-id :
    (id : String) (o : Option JobModel) (model : JobModel)
    → with_id id o ≡ some model
    → model.id ≡ id
with_id-id id none model h = absurd (cc)
with_id-id id (some m) model h = elim (Bool-cases (m.id == id)) [
  | inl e ↦
      let same : some m ≡ some model = rw e at h in
      let inj : m ≡ model = cc same in ap (λ x. x.id) (sym inj) ∙ (eq_iff m.id id).0 e
  | inr e ↦ let gone : none ≡ some model = rw e at h in absurd (cc)
]

with_id-assigned_row :
    (id : String) (o : Outcome) (r : Option JobModel)
    → with_id id (assigned_row o r) ≡ assigned_row o (with_id id r)
with_id-assigned_row id o none = refl
with_id-assigned_row id o (some m) = elim (Bool-cases (m.id == id)) [
  | inl e ↦ rw e refl
  | inr e ↦ rw e refl
]

view-IsLawful : IsLawful view session
view-IsLawful = record {
  get_done = λ id w v found h.
      let (e, end) = ok-eq-ok h in (sym e, λ j. ap (λ x. with_id j (x.rows j)) (sym end));
  get_id = λ id w model h. with_id-id id (w.rows id) model h;
  add_done = λ model w v h fresh.
      let (_, end) = ok-eq-ok h in
      ap (λ x. with_id model.id (x.rows model.id)) (sym end)
      ∙ rw (eq_refl model.id) (rw (eq_refl model.id) refl);
  assign_done = λ id o w v h.
      let (_, end) = ok-eq-ok h in
      ap (λ x. with_id id (x.rows id)) (sym end)
      ∙ rw (eq_refl id) (with_id-assigned_row id o (w.rows id));
}

abbrev waiting : Job
waiting =
    mark_recovery_pending (create "job-1" "https://shop.example/p" "shop.example" ("price" ∷ []))

abbrev empty : World
empty = record { rows = λ id. none; change = no_change }

abbrev stored : World
stored = (save session waiting empty).1

save_run : save session waiting empty ≡ (ok tt, stored)
unfolding save get update job_to_model model_to_job outcome_of JobStatus.value JobStatus.of_value
    create mark_recovery_pending mark_succeeded final_job
save_run = refl

get_run : get session waiting.id stored ≡ (ok (some waiting), stored)
unfolding save get update job_to_model model_to_job outcome_of JobStatus.value JobStatus.of_value
    create mark_recovery_pending mark_succeeded final_job
get_run = refl

get-save_example : some waiting ≡ some waiting
get-save_example =
    get-save view session view-IsLawful none waiting empty stored stored (some waiting) refl tt
      save_run get_run

abbrev outcome : RecoveryState
outcome = record {
  job_id = "job-1";
  url = "https://shop.example/p";
  domain = "shop.example";
  expected_schema = ("price", str) ∷ [];
  screenshot_base64 = some "png";
  attempt_number = 1;
  max_attempts = 3;
  proposed_selectors = some (("price", ".new") ∷ []);
  recovered_data = some (("price", "42") ∷ []);
  rejection_history = [];
  validation_result = valid;
  final_status = some success;
}

abbrev updated : World
updated = (update session (final_job waiting outcome) stored).1

stored_row_lem : view.row stored waiting.id ≡ some (job_to_model waiting)
unfolding save get update job_to_model model_to_job outcome_of JobStatus.value JobStatus.of_value
    create mark_recovery_pending mark_succeeded final_job
stored_row_lem = refl

update_run : update session (final_job waiting outcome) stored ≡ (ok tt, updated)
unfolding save get update job_to_model model_to_job outcome_of JobStatus.value JobStatus.of_value
    create mark_recovery_pending mark_succeeded final_job
update_run = refl

get_updated_run : get session waiting.id updated ≡ (ok (some (final_job waiting outcome)), updated)
unfolding save get update job_to_model model_to_job outcome_of JobStatus.value JobStatus.of_value
    create mark_recovery_pending mark_succeeded final_job
get_updated_run = refl

get-update_example : some (final_job waiting outcome) ≡ some (final_job waiting outcome)
get-update_example =
    get-update view session view-IsLawful waiting outcome stored updated updated
      (some (final_job waiting outcome)) stored_row_lem update_run get_updated_run
