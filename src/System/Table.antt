-- ===== src/System/Table.antt =====
-- The rows of the jobs table, and the changes to them that the services are allowed to make.
use project4_sentinel_ai_scr.Base.{
  String, ◌≡◌, refl, sym, subst, ◌∙◌, ◌⊎◌, inl, inr, Option, none, some, All,
}
use project4_sentinel_ai_scr.Base.Dict.{Dict}
use project4_sentinel_ai_scr.Shared.JobStatus.{
  JobStatus, pending, recovery_pending, recovering, success, failed, needs_human_review,
}
use project4_sentinel_ai_scr.Shared.Job.{Job}
use project4_sentinel_ai_scr.Shared.Validator.Rules.{IsFilled}
use project4_sentinel_ai_scr.Gateway.UseCase.Effects.{SameRequest}

-- The job has a result with a value that is not blank for each field that its request asked for.
abbrev pub HasResult : Job → Type 0
HasResult job =
    (result : Dict String) × (job.result ≡ some result) × All (IsFilled result) job.required_fields

abbrev pub CompleteAt : Job → JobStatus → Type 0
CompleteAt job success = HasResult job
CompleteAt job pending = Unit
CompleteAt job recovery_pending = Unit
CompleteAt job recovering = Unit
CompleteAt job failed = Unit
CompleteAt job needs_human_review = Unit

-- A job that succeeded has its result.
abbrev pub IsComplete : Job → Type 0
IsComplete job = CompleteAt job job.status

-- The statuses that a recovery ends with.
abbrev pub IsOutcome : JobStatus → Type 0
IsOutcome status = (status ≡ success) ⊎ (status ≡ needs_human_review)

pub record View (W : Type 0) : Type 0 where
  pub stored : W → String → Option Job

the_same : {a b : Job} → some a ≡ some b → a ≡ b
the_same h = cc h

pub SameRequest_trans : (a b c : Job) → SameRequest a b → SameRequest b c → SameRequest a c
SameRequest_trans a b c (p, q, r, s) (p', q', r', s') = (p ∙ p', q ∙ q', r ∙ r', s ∙ s')

-- From one row to another: unchanged, or a complete job that is new, or of the same request and the
-- outcome of a recovery.
pub data RowChange : Option Job → Option Job → Type 0 where
  unchanged : {old new : Option Job} → new ≡ old → RowChange old new
  created :
      {old new : Option Job} (job : Job)
      → old ≡ none
      → new ≡ some job
      → IsComplete job
      → RowChange old new
  recovered :
      {old new : Option Job} (before job : Job)
      → old ≡ some before
      → new ≡ some job
      → SameRequest before job
      → IsOutcome job.status
      → IsComplete job
      → RowChange old new

pub RowChange-trans : {a b c : Option Job} → RowChange a b → RowChange b c → RowChange a c
RowChange-trans (unchanged e) (unchanged e') = unchanged (e' ∙ e)
RowChange-trans (unchanged e) (created job p q c) = created job (sym e ∙ p) q c
RowChange-trans (unchanged e) (recovered before job p q s o c) =
    recovered before job (sym e ∙ p) q s o c
RowChange-trans (created job p q c) (unchanged e) = created job p (e ∙ q) c
RowChange-trans (created job p q c) (created job' p' q' c') =
    let clash = sym p' ∙ q in absurd (cc clash)
RowChange-trans (created job p q c) (recovered before job' p' q' s o c') = created job' p q' c'
RowChange-trans (recovered before job p q s o c) (unchanged e) =
    recovered before job p (e ∙ q) s o c
RowChange-trans (recovered before job p q s o c) (created job' p' q' c') =
    let clash = sym p' ∙ q in absurd (cc clash)
RowChange-trans (recovered before job p q s o c) (recovered before' job' p' q' s' o' c') =
    let e : job ≡ before' = cc (sym q ∙ p') in
    recovered before job' p q'
      (SameRequest_trans before before' job' (subst (SameRequest before) e s) s') o' c'

module _ {W : Type 0} (view : View W) where
  open view use {stored}

  abbrev pub SameRows : W → W → Type 0
  SameRows w v = (j : String) → stored v j ≡ stored w j

  -- Every row changed as it may.
  abbrev pub Evolves : W → W → Type 0
  Evolves w v = (j : String) → RowChange (stored w j) (stored v j)

  pub Evolves-refl : (w : W) → Evolves w w
  Evolves-refl w j = unchanged refl

  pub SameRows-Evolves : (w v : W) → SameRows w v → Evolves w v
  SameRows-Evolves w v same j = unchanged (same j)

  pub Evolves-trans : (w u v : W) → Evolves w u → Evolves u v → Evolves w v
  Evolves-trans w u v p q j = RowChange-trans (p j) (q j)

  -- Every job that is stored as a success has the result that was asked for.
  abbrev pub AllComplete : W → Type 0
  AllComplete w = (j : String) (job : Job) → stored w j ≡ some job → IsComplete job

  pub AllComplete-Evolves : (w v : W) → AllComplete w → Evolves w v → AllComplete v
  AllComplete-Evolves w v h e j job there = row (e j)
    where
      row : RowChange (stored w j) (stored v j) → IsComplete job
      row (unchanged same) = h j job (sym same ∙ there)
      row (created job' _ now complete) = subst IsComplete (the_same (sym now ∙ there)) complete
      row (recovered _ job' _ now _ _ complete) =
          subst IsComplete (the_same (sym now ∙ there)) complete

  -- A job that is there stays, unchanged or with the outcome of a recovery of the same request.
  pub Evolves-kept :
      (w v : W) (j : String) (job : Job)
      → Evolves w v
      → stored w j ≡ some job
      → (after : Job) × (stored v j ≡ some after)
        × SameRequest job after
        × ((after ≡ job) ⊎ (IsOutcome after.status × IsComplete after))
  Evolves-kept w v j job e there = row (e j)
    where
      row :
          RowChange (stored w j) (stored v j)
          → (after : Job) × (stored v j ≡ some after)
            × SameRequest job after
            × ((after ≡ job) ⊎ (IsOutcome after.status × IsComplete after))
      row (unchanged same) = (job, same ∙ there, (refl, refl, refl, refl), inl refl)
      row (created _ absent _ _) = let clash = sym absent ∙ there in absurd (cc clash)
      row (recovered before job' was now request outcome complete) = (
        job',
        now,
        subst (λ x. SameRequest x job') (the_same (sym was ∙ there)) request,
        inr (outcome, complete),
      )
