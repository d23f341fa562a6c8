-- ===== src/Worker/SelectorStore.antt =====
-- extraction_worker/infrastructure/redis_postgres_selector_repository.py and its table of selectors
-- (sql/selector_model.py). Redis, the SQL session and `json` are parameters over a world `W`; so is the
-- type `Raw` of the texts that `json` writes and Redis keeps.
pub mod Views
pub mod Saving
pub mod Coherence
pub mod Progress
use project4_sentinel_ai_scr.Base.{
  ℕ, ◌+◌, String, ◌<>◌, ◌==◌, Bool, true, Option, none, some, if◌then◌else◌,
}
use project4_sentinel_ai_scr.Base.Exec.{
  Exec, Result, ok, err, pure, modify, and_then, item, ◌>>=◌, ◌>>◌,
}
use project4_sentinel_ai_scr.Shared.Metrics.{Monitor, selector_cache_result}
use project4_sentinel_ai_scr.Worker.Selector.{Selector}
use project4_sentinel_ai_scr.Worker.Ports.{SelectorRepository}

-- A row; the database gives the id.
pub record SelectorModel : Type 0 where
  pub domain : String
  pub field_name : String
  pub selector_value : String
  pub version : ℕ
  pub source : String
  pub is_active : Bool

-- The JSON object of a cached selector, where a key that is missing is `none`.
pub record CachedSelector : Type 0 where
  pub selector_value : Option String
  pub source : Option String
  pub version : Option ℕ

pub record Redis (W Raw : Type 0) : Type 0 where
  pub get : String → Exec W (Option Raw)
  pub set : String → Raw → Exec W (Unit {0})

-- `json.dumps` and `json.loads`
pub record Json (Raw : Type 0) : Type 0 where
  pub dumps : CachedSelector → Raw
  pub loads : Raw → Result CachedSelector

-- The session: the select of the active row of a domain and a field with `scalar_one_or_none`, the
-- change of `is_active` of a row to false, `add`, and `commit`.
pub record Session (W : Type 0) : Type 0 where
  pub select_active : String → String → Exec W (Option SelectorModel)
  pub deactivate : SelectorModel → W → W
  pub add : SelectorModel → W → W
  pub commit : Exec W (Unit {0})

unfoldable pub cache_key : String → String → String
cache_key domain field_name = "selector:" <> (domain <> (":" <> field_name))

unfoldable pub model_to_selector : SelectorModel → Selector
model_to_selector model = record {
  domain = model.domain;
  field_name = model.field_name;
  selector_value = model.selector_value;
  source = if model.source == "manual" then "manual" else "ai_generated";
  version = model.version;
}

-- The object that is written for a selector.
unfoldable pub to_payload : Selector → CachedSelector
to_payload selector = record {
  selector_value = some selector.selector_value;
  source = some selector.source;
  version = some selector.version;
}

-- The selector that is read from an object.
unfoldable pub from_payload : String → String → CachedSelector → Result Selector
from_payload domain field_name payload = and_then (item payload.selector_value) λ selector_value.
    and_then (item payload.source) λ source. and_then (item payload.version) λ version. ok (record {
      domain = domain;
      field_name = field_name;
      selector_value = selector_value;
      source = source;
      version = version;
    })

unfoldable pub next_version : Option SelectorModel → ℕ
next_version none = 1
next_version (some previous) = previous.version + 1

unfoldable pub new_model : Selector → Option SelectorModel → SelectorModel
new_model selector previous = record {
  domain = selector.domain;
  field_name = selector.field_name;
  selector_value = selector.selector_value;
  version = next_version previous;
  source = selector.source;
  is_active = true;
}

abbrev pub map_model : Option SelectorModel → Option Selector
map_model none = none
map_model (some model) = some (model_to_selector model)

-- `RedisPostgresSelectorRepository.__init__`, with the metrics and `json`
pub record SelectorStore (W Raw : Type 0) : Type 0 where
  pub session : Session W
  pub redis : Redis W Raw
  pub json : Json Raw
  pub monitor : Monitor W

module _ {W Raw : Type 0} (s : SelectorStore W Raw) where
  abbrev pub read_cached : String → String → Option Raw → Result (Option Selector)
  read_cached domain field_name none = ok none
  read_cached domain field_name (some raw) =
      and_then (s.json.loads raw)
        λ payload. and_then (from_payload domain field_name payload) λ selector. ok (some selector)

  abbrev lift : {A : Type 0} → Result A → Exec W A
  lift r w = (r, w)

  unfoldable pub get_from_cache : String → String → Exec W (Option Selector)
  get_from_cache domain field_name = do
    raw ← s.redis.get (cache_key domain field_name)
    lift (read_cached domain field_name raw)

  unfoldable pub write_to_cache : Selector → Exec W (Unit {0})
  write_to_cache selector =
      s.redis.set (cache_key selector.domain selector.field_name)
        (s.json.dumps (to_payload selector))

  unfoldable pub get_from_postgres : String → String → Exec W (Option Selector)
  get_from_postgres domain field_name = do
    model ← s.session.select_active domain field_name
    pure (map_model model)

  abbrev pub deactivate_previous : Option SelectorModel → W → W
  deactivate_previous none w = w
  deactivate_previous (some previous) w = s.session.deactivate previous w

  unfoldable pub save_to_postgres : Selector → Exec W Selector
  save_to_postgres selector = do
    previous ← s.session.select_active selector.domain selector.field_name
    modify (λ w. s.session.add (new_model selector previous) (deactivate_previous previous w)) tt
    s.session.commit
    pure (model_to_selector (new_model selector previous))

  -- The rest of a lookup that found nothing in the cache.
  abbrev pub warm : Option Selector → Exec W (Option Selector)
  warm none = pure none
  warm (some selector) = do write_to_cache selector; pure (some selector)

  abbrev pub after_cache : String → String → Option Selector → Exec W (Option Selector)
  after_cache domain field_name (some cached) =
      modify (s.monitor.inc (selector_cache_result "hit") 1) (some cached)
  after_cache domain field_name none = do
    modify (s.monitor.inc (selector_cache_result "miss") 1) tt
    from_db ← get_from_postgres domain field_name
    warm from_db

  unfoldable pub get_active_selector : String → String → Exec W (Option Selector)
  get_active_selector domain field_name = do
    cached ← get_from_cache domain field_name
    after_cache domain field_name cached

  unfoldable pub save_selector : Selector → Exec W (Unit {0})
  save_selector selector = do saved ← save_to_postgres selector; write_to_cache saved

  unfoldable pub selector_store : SelectorRepository W
  unfolding get_active_selector save_selector
  selector_store = record {
    get_active_selector = get_active_selector;
    save_selector = save_selector;
  }
