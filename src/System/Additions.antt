-- ===== src/System/Additions.antt =====
-- The one row that a scrape request may add to the jobs table.
use project4_sentinel_ai_scr.Base.{
  String, ◌≡◌, refl, sym, ap, subst, ◌∙◌, ◌⊎◌, inl, inr, true, Option, none, some, All, Bool-cases,
}
use project4_sentinel_ai_scr.Base.Exec.{ok}
use project4_sentinel_ai_scr.Shared.FailureReason.{FailureReason}
use project4_sentinel_ai_scr.Shared.Validator.Rules.{IsFilled}
use project4_sentinel_ai_scr.Shared.Job.{Job, mark_succeeded, mark_recovery_pending, mark_failed}
use project4_sentinel_ai_scr.Gateway.Policy.{should_trigger_recovery}
use project4_sentinel_ai_scr.Gateway.Ports.{ExtractionResult, JobRepository}
use project4_sentinel_ai_scr.Gateway.UseCase.{apply_extraction_result, fail_with}
use project4_sentinel_ai_scr.Gateway.UseCase.Effects.{SameRequest}
use project4_sentinel_ai_scr.System.Table.{View, SameRows, Evolves, IsComplete, unchanged, created}

-- The row is not there, or of the same request.
abbrev pub Fits : Option Job → Job → Type 0
Fits none job = Unit
Fits (some old) job = SameRequest old job

-- A job after its extraction is of the same request, and complete if a success of the extraction is.
abbrev pub IsGood : Job → Job → Type 0
IsGood old job = SameRequest old job × IsComplete job

failed-IsGood :
    (old job : Job) (reason : Option FailureReason) → fail_with old reason ≡ ok job → IsGood old job
unfolding mark_failed
failed-IsGood old job none h = absurd (cc h)
failed-IsGood old job (some reason) h =
    let e : mark_failed old reason ≡ job = cc h in
    subst (IsGood old) e ((refl, refl, refl, refl), tt)

pub applied-IsGood :
    (old job : Job) (r : ExtractionResult)
    → (r.success ≡ true → All (IsFilled r.extracted) old.required_fields)
    → apply_extraction_result old r ≡ ok job
    → IsGood old job
unfolding apply_extraction_result mark_succeeded mark_recovery_pending
applied-IsGood old job r full h = elim (Bool-cases r.success) [
  | inl good ↦
      let h' : ok (mark_succeeded old r.extracted) ≡ ok job = rw good at h in
      let e : mark_succeeded old r.extracted ≡ job = cc h' in
      subst (IsGood old) e ((refl, refl, refl, refl), (r.extracted, refl, full good))
  | inr bad ↦ elim (Bool-cases (should_trigger_recovery r.failure_reason)) [
    | inl again ↦
        let h' : ok (mark_recovery_pending old) ≡ ok job = rw (bad, again) at h in
        let e : mark_recovery_pending old ≡ job = cc h' in
        subst (IsGood old) e ((refl, refl, refl, refl), tt)
    | inr final ↦ failed-IsGood old job r.failure_reason (rw (bad, final) at h)
  ]
]

module _ {W : Type 0} (view : View W) (repository : JobRepository W) where
  open view use {stored}

  -- A repository of which a save, whether it returns or raises, writes nothing or the row of its job, if that
  -- is new or of the same request, and a lookup changes nothing.
  pub record SavesJobs : Type 0 where
    pub save_rows :
        (job : Job) (w : W) (j : String)
        → Fits (stored w job.id) job
        → let v = (repository.save job w).1 in
          (stored v j ≡ stored w j) ⊎ ((j ≡ job.id) × (stored v j ≡ some job))
    pub get_rows : (id : String) (w : W) → SameRows view w (repository.get id w).1

  -- Between the worlds, at most the row of the request was written, with a job that is complete.
  abbrev pub Adds : Job → W → W → Type 0
  Adds job₀ w v =
      (j : String)
      → (stored v j ≡ stored w j)
        ⊎ ((j ≡ job₀.id) × (job : Job) × (stored v j ≡ some job) × IsGood job₀ job)

  pub Adds-same : (job₀ : Job) (w u v : W) → SameRows view u v → Adds job₀ w u → Adds job₀ w v
  Adds-same job₀ w u v same h j = elim (h j) [
    | inl e ↦ inl (same j ∙ e)
    | inr (at, job, e, good) ↦ inr (at, job, same j ∙ e, good)
  ]

  Adds-Fits :
      (job₀ job : Job) (w v : W)
      → stored w job₀.id ≡ none
      → Adds job₀ w v
      → SameRequest job₀ job
      → Fits (stored v job.id) job
  Adds-Fits job₀ job w v fresh h same =
      subst (λ x. Fits (stored v x) job) same.0
        (elim (h job₀.id) [
          | inl e ↦ subst (λ o. Fits o job) (sym (e ∙ fresh)) tt
          | inr (_, old, e, ((a, b, c, d), _)) ↦
              subst (λ o. Fits o job) (sym e)
                (sym a ∙ same.0, sym b ∙ same.1, sym c ∙ same.2, sym d ∙ same.3)
        ])

  pub Adds-Evolves :
      (job₀ : Job) (w v : W) → stored w job₀.id ≡ none → Adds job₀ w v → Evolves view w v
  Adds-Evolves job₀ w v fresh h j = elim (h j) [
    | inl e ↦ unchanged e
    | inr (at, job, e, (_, complete)) ↦ created job (ap (stored w) at ∙ fresh) e complete
  ]

  module _ (table : SavesJobs) where
    pub save-Adds :
        (job₀ job : Job) (w v : W)
        → stored w job₀.id ≡ none
        → IsGood job₀ job
        → Adds job₀ w v
        → Adds job₀ w (repository.save job v).1
    save-Adds job₀ job w v fresh (same, complete) h j =
        elim (table.save_rows job v j (Adds-Fits job₀ job w v fresh h same)) [
          | inl e ↦ elim (h j) [
            | inl e' ↦ inl (e ∙ e')
            | inr (at, old, e', good) ↦ inr (at, old, e ∙ e', good)
          ]
          | inr (at, e) ↦ inr (at ∙ sym same.0, job, e, (same, complete))
        ]
