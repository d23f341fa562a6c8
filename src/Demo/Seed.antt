-- ===== src/Demo/Seed.antt =====
-- deployment/huggingface-space/seed_demo_data.py: the selector that the demonstration knows from the start.
use project4_sentinel_ai_scr.Base.Exec.{Exec}
use project4_sentinel_ai_scr.Worker.Selector.{Selector}
use project4_sentinel_ai_scr.Worker.Ports.{SelectorRepository}

abbrev pub seeded : Selector
seeded = record {
  domain = "demo.sentinelai.local";
  field_name = "title";
  selector_value = "h1.title";
  source = "manual";
  version = 1;
}

-- `seed`, from the repository on
unfoldable pub seed : {W : Type 0} → SelectorRepository W → Exec W (Unit {0})
seed repository = repository.save_selector seeded
