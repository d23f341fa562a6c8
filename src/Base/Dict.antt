-- ===== src/Base/Dict.antt =====
-- Python's `dict` with text keys: an association list in insertion order. An assignment to a key that
-- is there keeps its place, as in Python.
use Prim.Native.String.{String}
use mathlib.Core.Path.{◌≡◌, refl}
use mathlib.Core.Bool.{Bool, false, ◌||◌}
use mathlib.Core.Option.{Option, none, some}
use mathlib.Core.List.{List, [], ◌∷◌}
use native.Mathlib.Omega.{arith}
use text.Mathlib.Text.{◌==◌}
use text.Mathlib.TextEquality.{eq_iff}
use text.Mathlib.TextPositions.{eq_refl}
use project4_sentinel_ai_scr.Base.Tests.{if◌then◌else◌}
use project4_sentinel_ai_scr.Base.Lists.{contains}

abbrev pub Dict {ℓ} : Type ℓ → Type ℓ
Dict V = List (String × V)

module _ {ℓ} {V : Type ℓ} where
  -- `d.get(k)`
  unfoldable pub lookup : String → Dict V → Option V
  lookup k [] = none
  lookup k ((j, v) ∷ d) = if j == k then some v else lookup k d

  -- `d[k] = v`
  unfoldable pub insert : String → V → Dict V → Dict V
  insert k v [] = (k, v) ∷ []
  insert k v ((j, w) ∷ d) = if j == k then (j, v) ∷ d else (j, w) ∷ insert k v d

  -- `list(d.keys())`
  unfoldable pub keys : Dict V → List String
  keys [] = []
  keys ((j, w) ∷ d) = j ∷ keys d

  -- `k in d`
  unfoldable pub has_key : String → Dict V → Bool
  has_key k [] = false
  has_key k ((j, w) ∷ d) = j == k || has_key k d

  -- `dict.fromkeys(ks, v)`
  unfoldable pub from_keys_onto : List String → V → Dict V → Dict V
  unfolding insert
  from_keys_onto [] v d = d
  from_keys_onto (k ∷ ks) v d = from_keys_onto ks v (insert k v d)

  unfoldable pub from_keys : List String → V → Dict V
  unfolding from_keys_onto
  from_keys ks v = from_keys_onto ks v []

  pub lookup-insert :
      (k j : String) (v : V) (d : Dict V)
      → lookup j (insert k v d) ≡ (if k == j then some v else lookup j d)
  unfolding lookup insert
  lookup-insert k j v [] = refl
  lookup-insert k j v ((i, w) ∷ d) =
      ground (arith, eq_iff k j, eq_iff i k, eq_iff i j, lookup-insert k j v d)

  pub lookup-insert_self : (k : String) (v : V) (d : Dict V) → lookup k (insert k v d) ≡ some v
  lookup-insert_self k v d = simp (lookup-insert, eq_refl)

  pub contains-keys-insert :
      (k j : String) (v : V) (d : Dict V)
      → contains (keys (insert k v d)) j ≡ (k == j || contains (keys d) j)
  unfolding keys insert
  contains-keys-insert k j v [] = refl
  contains-keys-insert k j v ((i, w) ∷ d) =
      ground (arith, eq_iff k j, eq_iff i k, eq_iff i j, contains-keys-insert k j v d)

  pub contains-keys-from_keys_onto :
      (ks : List String) (v : V) (d : Dict V) (j : String)
      → contains (keys (from_keys_onto ks v d)) j ≡ (contains ks j || contains (keys d) j)
  unfolding from_keys_onto
  contains-keys-from_keys_onto [] v d j = refl
  contains-keys-from_keys_onto (k ∷ ks) v d j =
      ground
        (arith, contains-keys-from_keys_onto ks v (insert k v d) j, contains-keys-insert k j v d)

  -- The keys of `dict.fromkeys(ks, v)` are those of the list.
  pub contains-keys-from_keys :
      (ks : List String) (v : V) (j : String) → contains (keys (from_keys ks v)) j ≡ contains ks j
  unfolding from_keys keys
  contains-keys-from_keys ks v j = ground (arith, contains-keys-from_keys_onto ks v [] j)

  pub has_key-eq-contains-keys : (k : String) (d : Dict V) → has_key k d ≡ contains (keys d) k
  unfolding has_key keys
  has_key-eq-contains-keys k [] = refl
  has_key-eq-contains-keys k ((j, w) ∷ d) = ground (arith, has_key-eq-contains-keys k d)

  pub has_key_iff_lookup : (k : String) (d : Dict V) → has_key k d ≡ false → lookup k d ≡ none
  unfolding has_key lookup
  has_key_iff_lookup k [] h = refl
  has_key_iff_lookup k ((j, w) ∷ d) h = ground (arith, has_key_iff_lookup k d)
