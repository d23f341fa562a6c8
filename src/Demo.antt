-- ===== src/Demo.antt =====
-- deployment/huggingface-space/app.py: the asynchronous generators behind the two tabs of the demonstration.
-- The HTTP client, `json.dumps` and `urlparse` are parameters, and Gradio shows what is yielded.
pub mod Polling
pub mod Bounds
pub mod Seed
use project4_sentinel_ai_scr.Base.{
  ℕ, zero, suc, ◌+◌, String, ◌<>◌, ◌==◌, Bool, true, false, Option, none, some, List, [], ◌∷◌, ◌++◌,
  select, not, map, if◌then◌else◌,
}
use project4_sentinel_ai_scr.Base.Text.{decimal, strip, split, is_blank}
use project4_sentinel_ai_scr.Base.Exec.{
  Exec, Exception, Result, ok, err, pure, raise, item, and_then, modify, ◌>>=◌, ◌>>◌,
  json_decode_error,
}

-- The entries of an answer that the code reads, `none` for a missing one and for a status that is null, and
-- the text of the whole.
pub record Body : Type 0 where
  pub status : Option String
  pub job_id : Option String
  pub dumped : String  -- `json.dumps(body, indent=2)`

-- The client of one run, of which an answer is its JSON, `none` where that cannot be decoded.
pub record Client (W : Type 0) : Type 0 where
  pub post_job : String → String → List String → Exec W (Option Body)
  pub get_job : String → Exec W (Option Body)
  pub sleep : W → W
  pub describe : Exception → String  -- `str(error)`
  pub real_claude_configured : Bool
  pub netloc : String → Result String  -- of `urlparse(url)`

-- `POLL_ATTEMPTS`
abbrev pub poll_attempts : ℕ
poll_attempts = 20

-- What was yielded so far, beside the world.
abbrev pub Shown : Type 0 → Type 0
Shown W = W × List String

abbrev pub yield : {W : Type 0} → String → Exec (Shown W) (Unit {0})
yield text (w, log) = (ok tt, (w, log ++ (text ∷ [])))

abbrev pub during : {W A : Type 0} → Exec W A → Exec (Shown W) A
during m (w, log) = ((m w).0, ((m w).1, log))

abbrev pub decoded : Option Body → Result Body
decoded none = err json_decode_error
decoded (some body) = ok body

abbrev pub lift : {W A : Type 0} → Result A → Exec W A
lift r w = (r, w)

abbrev pub recovered_text : Body → String
recovered_text body = "Recovered successfully:\n\n" <> body.dumped

abbrev pub flagged_text : Body → String
flagged_text body = "Recovery exhausted its attempts - flagged for human review:\n\n" <> body.dumped

abbrev pub timed_out_text : String
timed_out_text = "Timed out waiting for recovery - please try again."

-- A missing status is printed as `None`.
abbrev status_text : Option String → String
status_text none = "None"
status_text (some status) = status

abbrev pub waiting_text : ℕ → Body → String
waiting_text attempt body =
    "Still recovering... (poll "
    <> (decimal attempt
        <> ("/" <> (decimal poll_attempts <> (", status: " <> (status_text body.status <> ")")))))

pub data Verdict : Type 0 where
  succeeded flagged waits : Verdict

-- The tests on the status of a poll.
unfoldable pub verdict_of : Option String → Verdict
verdict_of none = waits
verdict_of (some status) =
    if status == "success"
    then succeeded
    else if status == "needs_human_review"
    then flagged
    else waits

abbrev pub immediate_text : Body → String
immediate_text body = "Extracted immediately, no recovery needed:\n\n" <> body.dumped

abbrev pub refused_text : Body → String
refused_text body =
    "Extraction failed (not recoverable by design - see the Deterministic-First ADR):\n\n"
    <> body.dumped

abbrev pub unreachable_text : String → String
unreachable_text error = "Could not reach the API Gateway: " <> error

abbrev pub engine_label : Bool → String
engine_label true = "your configured Claude API key (real AI call)"
engine_label false =
    "the demo stand-in engine — no ANTHROPIC_API_KEY configured for this Space, see README"

abbrev pub is_status : String → Option String → Bool
is_status value none = false
is_status value (some status) = status == value

-- `[f.strip() for f in fields_csv.split(",") if f.strip()]`
unfoldable pub custom_fields : String → List String
custom_fields fields_csv = map strip (select (λ f. not (is_blank f)) (split 44 fields_csv))

module _ {W : Type 0} (client : Client W) where
  -- What follows a poll: the end, or another one.
  abbrev pub after_poll : Verdict → ℕ → Body → Exec (Shown W) (Unit {0}) → Exec (Shown W) (Unit {0})
  after_poll succeeded attempt body onward = yield (recovered_text body)
  after_poll flagged attempt body onward = yield (flagged_text body)
  after_poll waits attempt body onward = do yield (waiting_text attempt body); onward

  -- The rest of the loop over `range(1, POLL_ATTEMPTS + 1)`, from an attempt on.
  unfoldable pub poll : ℕ → ℕ → String → Exec (Shown W) (Unit {0})
  poll zero attempt job_id = yield timed_out_text
  poll (suc left) attempt job_id = do
    during (modify client.sleep tt)
    answer ← during (client.get_job job_id)
    body ← lift (decoded answer)
    after_poll (verdict_of body.status) attempt body (poll left (attempt + 1) job_id)

  abbrev pub pending_text : String → String
  pending_text job_id =
      "A required selector is missing. Recovery triggered via "
      <> (engine_label client.real_claude_configured <> (".\njob_id: " <> job_id))

  -- From the answer of the request on.
  abbrev pub follow : Body → Exec (Shown W) (Unit {0})
  follow body = do
    job_id ← lift (item body.job_id)
    yield (pending_text job_id)
    poll poll_attempts 1 job_id

  abbrev pub respond : Body → Exec (Shown W) (Unit {0})
  respond body =
      if is_status "success" body.status
      then yield (immediate_text body)
      else if is_status "recovery_pending" body.status
      then follow body
      else yield (refused_text body)

  -- The `try` around the request, and the reading of its answer.
  abbrev pub after_submit : Result (Option Body) × Shown W → Result (Unit {0}) × Shown W
  after_submit (ok answer, s) = (lift (decoded answer) >>= respond) s
  after_submit (err Exception.http_error, s) =
      yield (unreachable_text (client.describe Exception.http_error)) s
  after_submit (err e, s) = (err e, s)

  unfoldable pub submit_and_poll : String → String → List String → Exec (Shown W) (Unit {0})
  submit_and_poll url domain required_fields = do
    yield "Submitting request..."
    (λ s. after_submit (during (client.post_job url domain required_fields) s))

  unfoldable pub run_guided_demo : Exec (Shown W) (Unit {0})
  run_guided_demo =
      submit_and_poll "file:///app/fixtures/demo-sites/static-site/book_page.html"
        "demo.sentinelai.local" ("title" ∷ "price" ∷ [])

  abbrev pub with_fields : String → List String → Exec (Shown W) (Unit {0})
  with_fields url [] =
      yield "Please provide at least one required field, comma-separated (e.g. 'title, price')."
  with_fields url (field ∷ fields) = do
    netloc ← lift (client.netloc url)
    submit_and_poll url (if netloc == "" then "unknown" else netloc) (field ∷ fields)

  unfoldable pub run_custom_url : String → String → Exec (Shown W) (Unit {0})
  run_custom_url url fields_csv =
      if is_blank url
      then yield "Please provide a URL."
      else with_fields url (custom_fields fields_csv)
