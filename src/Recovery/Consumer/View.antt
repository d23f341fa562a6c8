-- ===== src/Recovery/Consumer/View.antt =====
-- What the services hold, what their documented behaviour is, and when a message is safe.
use project4_sentinel_ai_scr.Base.{
  ℕ, String, ◌==◌, ◌≡◌, refl, sym, subst, ◌⊎◌, inl, inr, Bool, true, false, Option, none, some,
  List, All,
}
use project4_sentinel_ai_scr.Base.Dict.{Dict, lookup}
use project4_sentinel_ai_scr.Base.Exec.{Exec, Result, ok, err, continue}
use project4_sentinel_ai_scr.Shared.Metrics.{recovery_duration_seconds}
use project4_sentinel_ai_scr.Shared.JobStatus.{
  JobStatus, pending, recovery_pending, recovering, success, failed, needs_human_review,
}
use project4_sentinel_ai_scr.Shared.Job.{Job}
use project4_sentinel_ai_scr.Recovery.State.{RecoveryState}
use project4_sentinel_ai_scr.Recovery.Consumer.{Message, Consumer}

-- What the services hold in a world: the messages that wait in the stream, those that are delivered and
-- not acknowledged, the status of each job, and the job that a message is about.
pub record View (W : Type 0) : Type 0 where
  pub is_waiting : W → String → Bool
  pub is_pending : W → String → Bool
  pub status : W → String → Option JobStatus
  pub job_of : String → String

-- The job is gone, or has a status that a recovery ends with.
abbrev pub Settled : Option JobStatus → Type 0
Settled none = Unit
Settled (some success) = Unit
Settled (some needs_human_review) = Unit
Settled (some pending) = ⊥
Settled (some recovery_pending) = ⊥
Settled (some recovering) = ⊥
Settled (some failed) = ⊥

module _ {W : Type 0} (view : View W) where
  open view use {is_waiting, is_pending, status, job_of}

  abbrev pub InStream : W → String → Type 0
  InStream w m = (is_waiting w m ≡ true) ⊎ (is_pending w m ≡ true)

  -- The world changed in nothing that the view shows.
  abbrev pub Same : W → W → Type 0
  Same w v = ((m : String) → InStream w m → InStream v m) × ((j : String) → status v j ≡ status w j)

  abbrev pub IsAbout : Message → Type 0
  IsAbout (id, fields) = lookup "job_id" fields ≡ some (job_of id)

  abbrev pub AreAbout : List (String × List Message) → Type 0
  AreAbout = All (λ (stream, messages). All IsAbout messages)

  -- The documented behaviour of the services: Redis delivers what was added, keeps a delivered message
  -- pending until it is acknowledged, and a job row changes by an update of that job alone.
  pub record IsLawful (c : Consumer W) : Type 0 where
    pub create : (w : W) → Same w (c.redis.xgroup_create c.stream_key c.group_name w).1
    pub read :
        (block : ℕ) (w : W)
        → Same w (c.redis.xreadgroup c.stream_key c.group_name c.consumer_name block w).1
    pub read_about :
        (block : ℕ) (w v : W) (response : List (String × List Message))
        → c.redis.xreadgroup c.stream_key c.group_name c.consumer_name block w ≡ (ok response, v)
        → AreAbout response
    pub claim :
        (idle : ℕ) (w : W)
        → Same w (c.redis.xautoclaim c.stream_key c.group_name c.consumer_name idle w).1
    pub claim_about :
        (idle : ℕ) (w v : W) (messages : List Message)
        → c.redis.xautoclaim c.stream_key c.group_name c.consumer_name idle w ≡ (ok messages, v)
        → All IsAbout messages
    pub ack_others :
        (id m : String) (w : W)
        → (id == m) ≡ false
        → InStream w m
        → InStream (c.redis.xack c.stream_key c.group_name id w).1 m
    pub ack_status :
        (id : String) (w : W) (j : String)
        → status (c.redis.xack c.stream_key c.group_name id w).1 j ≡ status w j
    pub get_same : (j : String) (w : W) → Same w (c.jobs.get j w).1
    pub get_none : (j : String) (w v : W) → c.jobs.get j w ≡ (ok none, v) → status v j ≡ none
    pub get_some :
        (j : String) (w v : W) (job : Job) → c.jobs.get j w ≡ (ok (some job), v) → job.id ≡ j
    pub update_stream :
        (job : Job) (w : W) (m : String) → InStream w m → InStream (c.jobs.update job w).1 m
    pub update_status :
        (job : Job) (w : W) (j : String)
        → let v = (c.jobs.update job w).1 in
          (status v j ≡ status w j) ⊎ ((j ≡ job.id) × (status v j ≡ some job.status))
    pub update_done :
        (job : Job) (w v : W) → c.jobs.update job w ≡ (ok tt, v) → status v job.id ≡ some job.status
    pub graph_same : (s : RecoveryState) (w : W) → Same w (c.ainvoke s w).1
    pub observe_same : (w : W) → Same w (c.monitor.observe recovery_duration_seconds w)
    pub span_same : (carrier : Dict String) (w : W) → Same w (c.tracer.start_span carrier w)
    pub end_same : (w : W) → Same w (c.tracer.end_span w)

  -- The message can still be delivered or reclaimed, or its job needs no recovery.
  abbrev pub IsSafe : W → String → Type 0
  IsSafe w m = InStream w m ⊎ Settled (status w (job_of m))

  pub same-IsSafe : (w v : W) (m : String) → Same w v → IsSafe w m → IsSafe v m
  same-IsSafe w v m (stream, rows) (inl h) = inl (stream m h)
  same-IsSafe w v m (stream, rows) (inr h) = inr (subst Settled (sym (rows (job_of m))) h)

  -- An outcome in which every message that was safe in `w` is safe.
  abbrev pub Protects : {A : Type 0} → W → Result A × W → Type 0
  Protects w r = (m : String) → IsSafe w m → IsSafe r.1 m

  pub Protects-then :
      {A B : Type 0} (w : W) (r : Result A × W) (f : A → Exec W B)
      → Protects w r
      → ((a : A) (v : W) → r ≡ (ok a, v) → Protects v (f a v))
      → Protects w (continue r f)
  Protects-then w (ok a, v) f p q m h = q a v refl m (p m h)
  Protects-then w (err e, v) f p q m h = p m h
