-- ===== src/Base/Keeps.antt =====
-- Operations that keep a property of the world, whether they return or raise.
use project4_sentinel_ai_scr.Base.Exec.{Exec, Result, ok, err, continue, ◌>>=◌, pure}
use mathlib.Core.Path.{◌≡◌, refl}

module _ {ℓ} {W : Type ℓ} (I : W → Type ℓ) where
  abbrev pub Keeps : {A : Type ℓ} → Exec W A → Type ℓ
  Keeps m = (w : W) → I w → I (m w).1

  pub Keeps-pure : {A : Type ℓ} (a : A) → Keeps (pure a)
  Keeps-pure a w h = h

  pub Keeps-continue :
      {A B : Type ℓ} (r : Result A × W) (f : A → Exec W B)
      → I r.1
      → ((a : A) → Keeps (f a))
      → I (continue r f).1
  Keeps-continue (ok a, w) f h k = k a w h
  Keeps-continue (err e, w) f h k = h

  pub Keeps-bind :
      {A B : Type ℓ} (m : Exec W A) (f : A → Exec W B)
      → Keeps m
      → ((a : A) → Keeps (f a))
      → Keeps (m >>= f)
  Keeps-bind m f p q w h = Keeps-continue (m w) f (p w h) q

  -- The same, where what follows may use how the first part returned.
  pub Keeps-continue_known :
      {A B : Type ℓ} (r : Result A × W) (f : A → Exec W B)
      → I r.1
      → ((a : A) (v : W) → r ≡ (ok a, v) → I v → I (f a v).1)
      → I (continue r f).1
  Keeps-continue_known (ok a, w) f h k = k a w refl h
  Keeps-continue_known (err e, w) f h k = h
