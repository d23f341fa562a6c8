-- ===== src/Shared/Validator/Rules.antt =====
-- What the outcome of a validation says of the extracted data.
use project4_sentinel_ai_scr.Base.{
  String, ◌≡◌, refl, ◌≢◌, sym, ◌∙◌, ◌↔◌, true, false, Option, none, some, List, [], ◌∷◌, arith,
  select, All, if◌then◌else◌, Bool-cases, Option-cases, ◌⊎◌, inl, inr, ap,
}
use project4_sentinel_ai_scr.Base.Dict.{Dict, lookup, has_key}
use project4_sentinel_ai_scr.Base.Text.{is_blank}
use project4_sentinel_ai_scr.Shared.FailureReason.{
  FailureReason, missing_required_field, empty_required_field,
}
use project4_sentinel_ai_scr.Shared.Validator.{
  is_missing_or_empty, determine_failure_reason, conclude, validate,
}

-- The field has a value that is not blank.
abbrev pub IsFilled : Dict String → String → Type 0
IsFilled extracted field_name =
    (value : String) × (lookup field_name extracted ≡ some value) × (is_blank value ≡ false)

IsFilled-of_test : (d : Dict String) (f : String) → is_missing_or_empty d f ≡ false → IsFilled d f
unfolding is_missing_or_empty
IsFilled-of_test d f h = elim (Option-cases (lookup f d)) [
  | inl absent ↦ absurd (ground arith)
  | inr (v, there) ↦ (v, there, ground arith)
]

test_of_filled : (d : Dict String) (f : String) → IsFilled d f → is_missing_or_empty d f ≡ false
unfolding is_missing_or_empty
test_of_filled d f (v, there, full) = ground arith

select-nil :
    (d : Dict String) (fs : List String)
    → select (is_missing_or_empty d) fs ≡ []
    → All (IsFilled d) fs
unfolding select
select-nil d [] h = tt
select-nil d (f ∷ fs) h = elim (Bool-cases (is_missing_or_empty d f)) [
  | inl missing ↦ absurd (ground arith)
  | inr filled ↦ (IsFilled-of_test d f filled, select-nil d fs (ground arith))
]

select_filled :
    (d : Dict String) (fs : List String)
    → All (IsFilled d) fs
    → select (is_missing_or_empty d) fs ≡ []
unfolding select
select_filled d [] h = refl
select_filled d (f ∷ fs) (here, rest) =
    ground (arith, test_of_filled d f here, select_filled d fs rest)

conclude-is_success :
    (d : Dict String) (missing : List String)
    → ((conclude d missing).is_success ≡ true) ↔ (missing ≡ [])
unfolding conclude
conclude-is_success d [] = (λ h. refl, λ h. refl)
conclude-is_success d (m ∷ ms) = (λ h. cc, λ h. cc)

-- A validation succeeds exactly when every required field has a value that is not blank.
pub validate-is_success_iff :
    (required_fields : List String) (extracted : Dict String)
    → ((validate required_fields extracted).is_success ≡ true)
      ↔ All (IsFilled extracted) required_fields
unfolding validate
validate-is_success_iff fs d = (
  λ h. select-nil d fs ((conclude-is_success d _).0 h),
  λ h. (conclude-is_success d _).1 (select_filled d fs h),
)

-- The reason that the first missing field calls for; `none` with no missing field.
abbrev pub reason_of : Dict String → List String → Option FailureReason
reason_of d [] = none
reason_of d (f ∷ fs) =
    some (elim (lookup f d) [ none ↦ missing_required_field | some v ↦ empty_required_field ])

has_key-lookup :
    (k : String) (d : Dict String)
    → (if has_key k d then empty_required_field else missing_required_field)
      ≡ elim (lookup k d) [ none ↦ missing_required_field | some v ↦ empty_required_field ]
unfolding has_key lookup
has_key-lookup k [] = refl
has_key-lookup k ((j, v) ∷ d) = ground (arith, has_key-lookup k d)

conclude-missing_fields :
    (d : Dict String) (missing : List String) → (conclude d missing).missing_fields ≡ missing
unfolding conclude
conclude-missing_fields d [] = refl
conclude-missing_fields d (m ∷ ms) = refl

conclude-failure_reason :
    (d : Dict String) (missing : List String)
    → (conclude d missing).failure_reason ≡ reason_of d (conclude d missing).missing_fields
unfolding conclude determine_failure_reason
conclude-failure_reason d [] = refl
conclude-failure_reason d (m ∷ ms) = ap some (has_key-lookup m d)

conclude-fails :
    (d : Dict String) (missing : List String)
    → ((conclude d missing).is_success ≡ false) ↔ ((conclude d missing).missing_fields ≢ [])
unfolding conclude
conclude-fails d [] = (λ h. cc, λ h. absurd (h refl))
conclude-fails d (m ∷ ms) = (λ _ h. cc, λ _. refl)

conclude-reason :
    (d : Dict String) (missing : List String)
    → (conclude d missing).is_success ≡ false
    → let reason = (conclude d missing).failure_reason in
      (reason ≡ some missing_required_field) ⊎ (reason ≡ some empty_required_field)
unfolding conclude determine_failure_reason
conclude-reason d [] h = cc
conclude-reason d (m ∷ ms) h = ground arith

-- The fields to report of the required ones: in their order, those without a value that is not blank.
pub data Reports (extracted : Dict String) : List String → List String → Type 0 where
  nothing : Reports extracted [] []
  passed :
      {f : String} {fs others : List String}
      → IsFilled extracted f
      → Reports extracted fs others
      → Reports extracted (f ∷ fs) others
  listed :
      {f : String} {fs others : List String}
      → ¬ IsFilled extracted f
      → Reports extracted fs others
      → Reports extracted (f ∷ fs) (f ∷ others)

not-IsFilled-of_test :
    (d : Dict String) (f : String) → is_missing_or_empty d f ≡ true → ¬ IsFilled d f
not-IsFilled-of_test d f missing full = let e = sym (test_of_filled d f full) ∙ missing in cc

select-Reports :
    (d : Dict String) (fs : List String) → Reports d fs (select (is_missing_or_empty d) fs)
unfolding select
select-Reports d [] = nothing
select-Reports d (f ∷ fs) = elim (Bool-cases (is_missing_or_empty d f)) [
  | inl e ↦ rw e (listed (not-IsFilled-of_test d f e) (select-Reports d fs))
  | inr e ↦ rw e (passed (IsFilled-of_test d f e) (select-Reports d fs))
]

-- A validation reports, in their order, just the required fields without a value that is not blank,
-- fails if there is one, and then gives the reason of the first: a field that is absent is
-- missing, and one that is there is empty.
pub validate_report :
    (required_fields : List String) (extracted : Dict String)
    → let outcome = validate required_fields extracted in
      Reports extracted required_fields outcome.missing_fields
      × (outcome.failure_reason ≡ reason_of extracted outcome.missing_fields)
      × ((outcome.is_success ≡ false) ↔ (outcome.missing_fields ≢ []))
unfolding validate
validate_report fs d = (
  rw conclude-missing_fields (select-Reports d fs),
  conclude-failure_reason d _,
  conclude-fails d _,
)

-- A failed validation has a reason, and the reason is one that a new selector may repair.
pub validate-reason_of_failure :
    (required_fields : List String) (extracted : Dict String)
    → (validate required_fields extracted).is_success ≡ false
    → let reason = (validate required_fields extracted).failure_reason in
      (reason ≡ some missing_required_field) ⊎ (reason ≡ some empty_required_field)
unfolding validate
validate-reason_of_failure fs d h = conclude-reason d _ h
