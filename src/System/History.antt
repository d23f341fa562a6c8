-- ===== src/System/History.antt =====
-- Histories of the whole system: the gateway serves requests and lookups, the recovery engine polls its
-- stream and reclaims messages, in any order, and each of them returns or raises.
use project4_sentinel_ai_scr.Base.{ℕ, String, ◌≡◌, subst, ◌⊎◌, Option, some}
use project4_sentinel_ai_scr.Shared.JobStatus
use project4_sentinel_ai_scr.Shared.Job.{Job}
use project4_sentinel_ai_scr.Gateway.UseCase.Effects.{SameRequest}
use project4_sentinel_ai_scr.Gateway.Router.{CreateScrapeRequestBody, create_scrape_job, get_job}
use project4_sentinel_ai_scr.Gateway.Dependencies.{
  AppState, get_rate_limiter, get_job_repository, use_case_with,
}
use project4_sentinel_ai_scr.Recovery.Ports.{RecoveryEnginePort}
use project4_sentinel_ai_scr.Recovery.Graph.{ExecutesSupersteps}
use project4_sentinel_ai_scr.Recovery.Consumer.{process_next_job, reclaim_stale_messages}
use project4_sentinel_ai_scr.Recovery.Main.{Process, sql_job_repository, process_consumer}
use project4_sentinel_ai_scr.Contract.JobRows.{JobSession}
use project4_sentinel_ai_scr.Contract.Served.{ServesWorker}
use project4_sentinel_ai_scr.Worker.Extract.{ExtractData}
use project4_sentinel_ai_scr.System.Table.{
  View, SameRows, Evolves, IsOutcome, IsComplete, HasResult, CompleteAt, AllComplete,
  SameRows-Evolves, Evolves-refl, Evolves-trans, AllComplete-Evolves, Evolves-kept,
}
use project4_sentinel_ai_scr.System.Additions.{SavesJobs}
use project4_sentinel_ai_scr.System.Updates.{UpdatesJobs}
use project4_sentinel_ai_scr.System.Repositories
use project4_sentinel_ai_scr.System.Requests
use project4_sentinel_ai_scr.System.Recoveries

-- The parts of the system: the gateway with its session, the recovery engine's process with the engine that
-- it chose, and the Worker.
pub record System (W : Type 0) : Type 0 where
  pub state : AppState W
  pub session : JobSession W
  pub process : Process W
  pub engine : RecoveryEnginePort W
  pub worker : ExtractData W

module _ {W : Type 0} (view : View W) where
  -- The services behave as documented, rows stand under their identifiers, both services reach the same Worker, and LangGraph runs by
  -- supersteps.
  pub record IsLawful (sys : System W) : Type 0 where
    pub keyed : (w : W) (j : String) (job : Job) → view.stored w j ≡ some job → job.id ≡ j
    pub gateway_session : Repositories.IsLawful view sys.session
    pub recovery_session : Repositories.IsLawful view sys.process.session
    pub requests : Requests.IsLawful view sys.state
    pub recoveries : Recoveries.IsLawful view sys.process sys.engine
    pub serves_gateway :
        ServesWorker sys.state.http_client sys.state.extraction_worker_base_url sys.worker
    pub serves_recovery : ServesWorker sys.process.http sys.process.worker_base_url sys.worker
    pub executes : ExecutesSupersteps sys.process.runtime

  -- One operation of a service, with the world that it leaves, or anything that does not touch the table.
  pub data Step (sys : System W) : W → W → Type 0 where
    request :
        (client : Option String) (body : CreateScrapeRequestBody) (w : W)
        → Step sys w
            (create_scrape_job
              (get_rate_limiter sys.state)
              (use_case_with sys.state (get_job_repository sys.session))
              client
              body
              w).1
    lookup_job :
        (id : String) (w : W)
        → Step sys w (get_job (use_case_with sys.state (get_job_repository sys.session)) id w).1
    poll :
        (block_ms : ℕ) (w : W)
        → Step sys w (process_next_job (process_consumer sys.process sys.engine) block_ms w).1
    reclaim :
        (min_idle_time_ms : ℕ) (w : W)
        → Step sys w
            (reclaim_stale_messages (process_consumer sys.process sys.engine) min_idle_time_ms w).1
    elsewhere : (w v : W) → SameRows view w v → Step sys w v

  pub data Reach (sys : System W) : W → W → Type 0 where
    here : {w : W} → Reach sys w w
    then : {w u v : W} → Reach sys w u → Step sys u v → Reach sys w v

  module _ (sys : System W) (lawful : IsLawful sys) where
    saves : SavesJobs view (get_job_repository sys.session)
    saves = Repositories.get_job_repository-SavesJobs view sys.session lawful.gateway_session

    updates : UpdatesJobs view (sql_job_repository sys.process.session)
    updates =
        Repositories.sql_job_repository-UpdatesJobs view sys.process.session lawful.recovery_session
          lawful.keyed

    Step-Evolves : {w v : W} → Step sys w v → Evolves view w v
    Step-Evolves (request client body w) =
        Requests.create_scrape_job-Evolves view sys.state (get_job_repository sys.session)
          lawful.requests saves sys.worker lawful.serves_gateway client body w
    Step-Evolves (lookup_job id w) = SameRows-Evolves view w _ (
        Requests.get_job-rows view sys.state (get_job_repository sys.session) lawful.requests saves
          id w)
    Step-Evolves (poll block w) =
        Recoveries.process_next_job-Evolves view sys.process sys.engine lawful.recoveries updates
          sys.worker lawful.serves_recovery lawful.executes block w
    Step-Evolves (reclaim idle w) =
        Recoveries.reclaim-Evolves view sys.process sys.engine lawful.recoveries updates sys.worker
          lawful.serves_recovery lawful.executes idle w
    Step-Evolves (elsewhere w v same) = SameRows-Evolves view w v same

    Reach-Evolves : {w v : W} → Reach sys w v → Evolves view w v
    Reach-Evolves here = Evolves-refl view _
    Reach-Evolves (then before step) =
        Evolves-trans view _ _ _ (Reach-Evolves before) (Step-Evolves step)

    -- Let the services behave as documented, the Worker serve the requests of both services and
    -- LangGraph run by supersteps. If every job that is stored as a success has a value that is
    -- not blank for each of its required fields, then this is so after any history of requests,
    -- lookups, polls and reclaims, whatever they return or raise: no success is ever stored
    -- without its data.
    pub Reach-HasResult :
        (w v : W)
        → AllComplete view w
        → Reach sys w v
        → (j : String) (job : Job) → view.stored v j ≡ some job
        → job.status ≡ JobStatus.success
        → HasResult job
    Reach-HasResult w v start history j job there done =
        subst (CompleteAt job) done
          (AllComplete-Evolves view w v start (Reach-Evolves history) j job there)

    -- Let the services behave as documented, the Worker serve the requests of both services and
    -- LangGraph run by supersteps. After any history of requests, lookups, polls and reclaims,
    -- whatever they return or raise, a job that was stored is still stored with the same address,
    -- domain and fields. It is unchanged, or it has the outcome of a recovery, which is complete
    -- if it is a success.
    pub Reach-kept :
        (w v : W) (j : String) (job : Job)
        → Reach sys w v
        → view.stored w j ≡ some job
        → (after : Job) × (view.stored v j ≡ some after)
          × SameRequest job after
          × ((after ≡ job) ⊎ (IsOutcome after.status × IsComplete after))
    Reach-kept w v j job history there = Evolves-kept view w v j job (Reach-Evolves history) there
