-- ===== src/System/Clients.antt =====
-- The clients of the Worker keep what a post of the HTTP client keeps, whether they return or raise.
use project4_sentinel_ai_scr.Base.{ℕ, String, ◌≡◌, refl, sym, subst, List, Bool-cases, inl, inr}
use project4_sentinel_ai_scr.Base.Dict.{Dict}
use project4_sentinel_ai_scr.Base.Exec.{Exception, Result, ok, err}
use project4_sentinel_ai_scr.Base.Keeps.{Keeps, Keeps-continue}
use project4_sentinel_ai_scr.Shared.Metrics.{Metric, Monitor}
use project4_sentinel_ai_scr.Recovery.State.{FieldType}
use project4_sentinel_ai_scr.Recovery.Ports.{RecoveryEnginePort}
use project4_sentinel_ai_scr.Contract.Http.{
  HttpClient, Request, Response, post_checked, after_post, http_extract, http_worker_service,
  http_capture_screenshot, http_validate_selectors, http_save_approved_selector,
}
use project4_sentinel_ai_scr.System.Runs.{KeptByPorts}

after_post-world : {W : Type 0} (r : Result Response × W) → (after_post r).1 ≡ r.1
after_post-world (ok response, w) = refl
after_post-world (err Exception.http_error, w) = refl
after_post-world (err _, w) = refl

module _ {W : Type 0} (I : W → Type 0) (client : HttpClient W)
    (posts : (url : String) (request : Request) → Keeps I (client.post url request)) where
  post_checked-Keeps :
      (url : String) (request : Request) → Keeps I (post_checked client url request)
  unfolding post_checked
  post_checked-Keeps url request w h =
      Keeps-continue I (client.post url request w) _ (posts url request w h) (λ response v k.
        elim (Bool-cases (client.is_error response.status_code)) [
          | inl bad ↦ rw bad k
          | inr good ↦ rw good k
        ])

  pub http_extract-Keeps :
      (base_url url domain : String) (fields : List String)
      → Keeps I (http_extract client base_url url domain fields)
  unfolding http_extract
  http_extract-Keeps base_url url domain fields w h =
      subst I (sym (after_post-world (post_checked client _ _ w))) (post_checked-Keeps _ _ w h)

  pub http_worker-KeptByPorts :
      (base_url : String) (engine : RecoveryEnginePort W) (monitor : Monitor W)
      → ((shot : String) (schema : Dict FieldType) (history : List String)
          → Keeps I (engine.propose_selectors shot schema history))
      → ((m : Metric) (n : ℕ) (w : W) → I w → I (monitor.inc m n w))
      → KeptByPorts I engine (http_worker_service client base_url) monitor
  unfolding http_worker_service http_capture_screenshot http_validate_selectors
      http_save_approved_selector
  http_worker-KeptByPorts base_url engine monitor proposes counts = record {
    propose = proposes;
    capture = λ url w h.
        Keeps-continue I (post_checked client _ _ w) _ (post_checked-Keeps _ _ w h) (λ _ _ k. k);
    validate = λ url domain fields selectors w h.
        Keeps-continue I (post_checked client _ _ w) _ (post_checked-Keeps _ _ w h) (λ _ _ k. k);
    save = λ domain field_name value w h.
        Keeps-continue I (post_checked client _ _ w) _ (post_checked-Keeps _ _ w h) (λ _ _ k. k);
    inc = counts;
  }
