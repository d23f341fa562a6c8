-- ===== src/Lib.antt =====
-- SentinelAI Scraper: an API that extracts fields from web pages with known CSS selectors, and an agent
-- that repairs a selector after a failed extraction.
--
-- The program is three Python services over a shared library, and this library has a module for each:
--
-- - Shared: libs/sentinel_shared. `Job` and its transitions (domain/job.py), the statuses and the failure
--   reasons (enums/), the validation of extracted fields (domain/extraction_validator.py), the metrics.
-- - Gateway: services/api-gateway. The policy on recoveries, the use case that handles a scrape request
--   (process_scrape_request_use_case.py), the rate limiter, the HTTP router (jobs_router.py), what its
--   routes are given (dependencies.py), and the doubles of its ports.
-- - Worker: services/extraction-worker. The use case that extracts fields (extract_data_use_case.py), the
--   store of selectors with its cache (redis_postgres_selector_repository.py), the browser
--   (playwright_browser.py), the HTTP router (extract_router.py), the body of the answers, and the doubles
--   in memory (in_memory_selector_repository.py, fake_browser.py).
-- - Recovery: services/recovery-engine. The nodes and the wiring of the LangGraph graph
--   (application/), and the consumer of the recovery stream with its loop (recovery_queue_consumer.py,
--   `_consume_forever` of main.py), the engine that asks Claude for selectors
--   (claude_vision_recovery_engine.py), its stand-ins with the choice between them (Engines), and the
--   wiring of the process (Main).
-- - Contract: the two HTTP clients of the Worker, in the gateway (http_extraction_service.py) and in the
--   recovery engine (http_worker_service.py), how they agree with the Worker; the jobs table that both
--   services write (sqlalchemy_job_repository.py, sql_job_repository.py); and the messages of the recovery
--   stream (redis_recovery_queue.py).
-- - Demo: deployment/huggingface-space. The generators behind the two tabs of app.py, and the selector that
--   seed_demo_data.py saves; the engine and the process of the folder are in Recovery.
-- - System: the services together. Table says how the rows of the jobs table may change; Additions, Requests
--   and Updates, Runs, Recoveries follow the operations of the gateway and of the recovery engine; Clients
--   is about the two HTTP clients in between; Repositories is the jobs table's interface over SQL; History
--   has the sequences of operations. One operation of a service is one step of a history, so two operations
--   that overlap in time are taken one after the other.
-- - Base: lists, dictionaries, texts and the monad `Exec` of asynchronous operations, which act on a
--   world and return a value or raise an exception. Tests: the theorems at concrete inputs.
--
-- A request goes through Gateway.Router and Gateway.UseCase to the Worker, and a failure that a new
-- selector may repair puts the job's identifier into a Redis stream. Recovery.Consumer reads it,
-- runs Recovery.Graph, which proposes selectors and has the Worker try them, and writes the job. An
-- operation of the source is a definition with its name; an `await` is a step of `Exec`.
--
-- Bounds and fuel. A run of the graph is a recursion on the supersteps that LangGraph allows, which
-- is its recursion limit; Recovery.Graph.Outcomes gives how many are enough. The endless loop of the
-- consumer is cut after any number of rounds.
--
-- Parameters, since their code is not in the repository: LangGraph, Redis, the SQL session, httpx,
-- the Anthropic client, json, random, urllib, OpenTelemetry, Prometheus and Playwright. What a
-- theorem needs of them is a hypothesis that it names: `ExecutesSupersteps`, and the `IsLawful`
-- records beside the views of what they hold. `ServesWorker` says that a request of the HTTP clients
-- runs the Worker's endpoint.
--
-- Each component has child modules for its proofs: Rules and Window (pure routines), Effects,
-- Delivery, Saving, Coherence and Sharing (what a run that returns did to the world), Progress and
-- Settling (that a run returns if its services do, and what it settles), Production (the Worker with
-- its real ports), Outcomes, Limit and Approval (how a run of the graph ends), Reading and Closing
-- (the browser), Polling and Bounds (the demonstration).
--
-- Not modelled: FastAPI and pydantic, the start-up of the services (app.py of each, and the settings
-- that main.py reads) with their health and metrics routes, the set-up of OpenTelemetry
-- (tracing.py), the layout of the Gradio page, and the tests.
pub mod Base
pub mod Shared
pub mod Recovery
pub mod Gateway
pub mod Worker
pub mod Contract
pub mod Demo
pub mod System
pub mod Tests
