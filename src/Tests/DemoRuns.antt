-- ===== src/Tests/DemoRuns.antt =====
-- A run of the demonstration whose job is recovered at the second poll.
use project4_sentinel_ai_scr.Base.{ℕ, ◌+◌, String, refl, false, some, [], ◌∷◌, eqb, if◌then◌else◌}
use project4_sentinel_ai_scr.Base.Exec.{ok}
use project4_sentinel_ai_scr.Base.Text.{decimal}
use project4_sentinel_ai_scr.Demo.{
  Body, Client, Shown, poll, submit_and_poll, run_custom_url, verdict_of,
}
use project4_sentinel_ai_scr.Demo.Polling.{EndsWith, submit_and_poll-ends}
use project4_sentinel_ai_scr.Demo.Bounds
use project4_sentinel_ai_scr.Demo.Bounds.{Counts, Within, run_custom_url-Within}

-- The requests and the lookups so far.
record World : Type 0 where
  posts : ℕ
  gets : ℕ

abbrev body_with : String → Body
body_with status = record { status = some status; job_id = some "job-1"; dumped = "{}" }

abbrev client : Client World
client = record {
  post_job = λ url domain fields w.
      (ok (some (body_with "recovery_pending")), record w { posts = w.posts + 1 });
  get_job = λ job_id w. (
    ok (some (body_with (if eqb w.gets 1 then "success" else "recovery_pending"))),
    record w { gets = w.gets + 1 },
  );
  sleep = λ w. w;
  describe = λ e. "";
  real_claude_configured = false;
  netloc = λ url. ok "shop.example";
}

abbrev before : Shown World
before = (record { posts = 0; gets = 0 }, [])

abbrev after : Shown World
after = (submit_and_poll client "https://shop.example/p" "shop.example" ("title" ∷ []) before).1

submit_and_poll-ends_example :
    EndsWith client "https://shop.example/p" "shop.example" ("title" ∷ []) after
unfolding submit_and_poll poll verdict_of decimal
submit_and_poll-ends_example =
    submit_and_poll-ends client "https://shop.example/p" "shop.example" ("title" ∷ []) before after
      refl

abbrev view : Bounds.View World
view = record { posts = λ w. w.posts; gets = λ w. w.gets }

client-Counts : Counts view client
client-Counts = record {
  posted = λ url domain fields w. (refl, refl);
  got = λ job_id w. (refl, refl);
  slept = λ w. (refl, refl);
}

run_custom_url-Within_example :
    Within view 1 20 23 before (run_custom_url client "https://shop.example/p" "title, ," before).1
run_custom_url-Within_example =
    run_custom_url-Within view client client-Counts "https://shop.example/p" "title, ," before
