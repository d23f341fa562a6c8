-- ===== src/Worker/SelectorStore/Views.antt =====
-- What Redis and the table of selectors hold, and their documented behaviour.
use project4_sentinel_ai_scr.Base.{String, ◌==◌, ◌≡◌, ◌⊎◌, true, false, Option, some}
use project4_sentinel_ai_scr.Base.Exec.{ok}
use project4_sentinel_ai_scr.Shared.Metrics.{selector_cache_result}
use project4_sentinel_ai_scr.Worker.SelectorStore.{
  SelectorModel, CachedSelector, SelectorStore, deactivate_previous,
}

-- The cached text of a key, and the active row of a domain and a field, both as committed.
pub record View (W Raw : Type 0) : Type 0 where
  pub cached : W → String → Option Raw
  pub active : W → String → String → Option SelectorModel

module _ {W Raw : Type 0} (view : View W Raw) where
  open view use {cached, active}

  abbrev pub SameRows : W → W → Type 0
  SameRows w v = (d f : String) → active v d f ≡ active w d f

  abbrev pub SameCache : W → W → Type 0
  SameCache w v = (key : String) → cached v key ≡ cached w key

  pub record IsLawful (s : SelectorStore W Raw) : Type 0 where
    pub loads_dumps : (payload : CachedSelector) → s.json.loads (s.json.dumps payload) ≡ ok payload
    pub inc_rows :
        (outcome : String) (w : W) → SameRows w (s.monitor.inc (selector_cache_result outcome) 1 w)
    pub inc_cache :
        (outcome : String) (w : W) → SameCache w (s.monitor.inc (selector_cache_result outcome) 1 w)
    pub get_done :
        (key : String) (w v : W) (raw : Option Raw)
        → s.redis.get key w ≡ (ok raw, v)
        → (raw ≡ cached w key) × SameRows w v × SameCache w v
    pub set_done :
        (key : String) (raw : Raw) (w v : W)
        → s.redis.set key raw w ≡ (ok tt, v)
        → (cached v key ≡ some raw)
          × ((k : String) → (key == k) ≡ false → cached v k ≡ cached w k)
          × SameRows w v
    pub select_done :
        (domain field_name : String) (w v : W) (found : Option SelectorModel)
        → s.session.select_active domain field_name w ≡ (ok found, v)
        → (found ≡ active w domain field_name) × SameRows w v × SameCache w v
    pub select_about :
        (domain field_name : String) (w : W) (model : SelectorModel)
        → active w domain field_name ≡ some model
        → (model.domain ≡ domain) × (model.field_name ≡ field_name)
    -- A unit of work that makes the active row of a pair inactive and adds an active row for it.
    pub commit_done :
        (model : SelectorModel) (previous : Option SelectorModel) (w v : W)
        → previous ≡ active w model.domain model.field_name
        → model.is_active ≡ true
        → s.session.commit (s.session.add model (deactivate_previous s previous w)) ≡ (ok tt, v)
        → (active v model.domain model.field_name ≡ some model)
          × ((d f : String)
              → (model.domain == d) ≡ false ⊎ (model.field_name == f) ≡ false
              → active v d f ≡ active w d f)
          × SameCache w v
