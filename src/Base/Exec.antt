-- ===== src/Base/Exec.antt =====
-- Operations over a world `W` that an `await` may change, and that may raise. What was written before
-- a raise stays written, so the world comes back beside the exception too.
use Prim.Native.Nat.{ℕ}
use Prim.Native.String.{String}
use mathlib.Core.Option.{Option, none, some}
use mathlib.Core.Path.{◌≡◌, ◌∙◌, refl, ap, subst, sym}

-- What the code raises itself, and what reaches it from the libraries that it calls.
pub data Exception : Type 0 where
  value_error assertion_error key_error json_decode_error : Exception
  graph_recursion_error : Exception  -- LangGraph
  index_error : Exception
  http_error : Exception  -- httpx.HTTPError and its subclasses
  http_exception : ℕ → Exception  -- fastapi.HTTPException, by its status code
  response_error : String → Exception  -- redis.ResponseError, by its text
  library_error : String → Exception  -- any other exception of a library

pub data Result {ℓ} (A : Type ℓ) : Type ℓ where
  ok : A → Result A
  err : Exception → Result A

abbrev pub Exec {ℓ} : Type ℓ → Type ℓ → Type ℓ
Exec W A = W → Result A × W

-- Pure code that may raise, one part after another.
abbrev pub and_then {ℓ κ} : {A : Type ℓ} {B : Type κ} → Result A → (A → Result B) → Result B
and_then (ok a) f = f a
and_then (err e) f = err e

-- `payload[key]`, where a key that is missing is `none`.
abbrev pub item {ℓ} : {A : Type ℓ} → Option A → Result A
item none = err key_error
item (some a) = ok a

module _ {ℓ} {W A : Type ℓ} where
  abbrev pub pure : A → Exec W A
  pure a w = (ok a, w)

  abbrev pub raise : Exception → Exec W A
  raise e w = (err e, w)

  -- A step of the libraries that cannot raise.
  abbrev pub modify : (W → W) → A → Exec W A
  modify f a w = (ok a, f w)

module _ {ℓ} {W A B : Type ℓ} where
  abbrev pub continue : Result A × W → (A → Exec W B) → Result B × W
  continue (ok a, w) f = f a w
  continue (err e, w) f = (err e, w)

  infixl 5 ◌>>=◌ ◌>>◌
  abbrev pub ◌>>=◌ : Exec W A → (A → Exec W B) → Exec W B
  ◌>>=◌ m f w = continue (m w) f

  abbrev pub ◌>>◌ : Exec W A → Exec W B → Exec W B
  ◌>>◌ m n w = continue (m w) (λ _. n)

module _ {ℓ} {W A : Type ℓ} where
  -- `finally`: what follows runs also after a raise, and an exception of its own takes the place of it.
  abbrev pub concluded : Result A → Result (Unit {0}) × W → Result A × W
  concluded r (ok _, w) = (r, w)
  concluded r (err e, w) = (err e, w)

  abbrev pub ensuring : Exec W A → (W → Result (Unit {0}) × W) → Exec W A
  ensuring m f w = concluded (m w).0 (f (m w).1)

module _ {ℓ} {W A : Type ℓ} where
  -- What holds of the outcome: `Q` after a return, `E` after a raise.
  abbrev pub Wp {κ} : Result A × W → (A → W → Type κ) → (Exception → W → Type κ) → Type κ
  Wp (ok a, w) Q E = Q a w
  Wp (err e, w) Q E = E e w

  pub Wp-intro {κ} :
      (r : Result A × W) (Q : A → W → Type κ) (E : Exception → W → Type κ)
      → ((a : A) (w : W) → r ≡ (ok a, w) → Q a w)
      → ((e : Exception) (w : W) → r ≡ (err e, w) → E e w)
      → Wp r Q E
  Wp-intro (ok a, w) Q E q e = q a w refl
  Wp-intro (err x, w) Q E q e = e x w refl

  pub Wp-ok {κ} :
      (r : Result A × W) (Q : A → W → Type κ) (E : Exception → W → Type κ) (a : A) (w : W)
      → Wp r Q E
      → r ≡ (ok a, w)
      → Q a w
  Wp-ok r Q E a w h p = subst (λ x. Wp x Q E) p h

  pub Wp-err {κ} :
      (r : Result A × W) (Q : A → W → Type κ) (E : Exception → W → Type κ) (e : Exception) (w : W)
      → Wp r Q E
      → r ≡ (err e, w)
      → E e w
  Wp-err r Q E e w h p = subst (λ x. Wp x Q E) p h

  pub Wp-map {κ} :
      (r : Result A × W) (Q Q' : A → W → Type κ) (E E' : Exception → W → Type κ)
      → Wp r Q E
      → ((a : A) (w : W) → Q a w → Q' a w)
      → ((e : Exception) (w : W) → E e w → E' e w)
      → Wp r Q' E'
  Wp-map (ok a, w) Q Q' E E' h q e = q a w h
  Wp-map (err x, w) Q Q' E E' h q e = e x w h

  -- An operation that is known by an equation.
  pub Wp-congr {κ} :
      {m n : Exec W A} (w : W) (Q : A → W → Type κ) (E : Exception → W → Type κ)
      → m ≡ n
      → Wp (n w) Q E
      → Wp (m w) Q E
  Wp-congr w Q E p h = subst (λ x. Wp (x w) Q E) (sym p) h

module _ {ℓ} {W A B : Type ℓ} where
  pub Wp-continue {κ} :
      (r : Result A × W) (f : A → Exec W B) (Q : B → W → Type κ) (E : Exception → W → Type κ)
      → Wp r (λ a w. Wp (f a w) Q E) E
      → Wp (continue r f) Q E
  Wp-continue (ok a, w) f Q E h = h
  Wp-continue (err e, w) f Q E h = h

module _ {ℓ} {W A B : Type ℓ} where
  -- Inversion of a bind that returned.
  pub continue-eq-ok :
      (r : Result A × W) (f : A → Exec W B) {b : B} {v : W}
      → continue r f ≡ (ok b, v)
      → (a : A) × (w : W) × (r ≡ (ok a, w)) × (f a w ≡ (ok b, v))
  continue-eq-ok (ok a, w) f h = (a, w, refl, h)
  continue-eq-ok (err e, w) f h = absurd (cc)

module _ {ℓ} {W A : Type ℓ} where
  -- What two equal returns have in common.
  pub ok-eq-ok : {a b : A} {w v : W} → Path (Result A × W) (ok a, w) (ok b, v) → (a ≡ b) × (w ≡ v)
  ok-eq-ok h = let e = ap (λ x. x.0) h in (cc e, ap (λ x. x.1) h)

  pub ok-ne-err : {a : A} {e : Exception} {w v : W} → Path (Result A × W) (err e, w) (ok a, v) → ⊥
  ok-ne-err h = let p = ap (λ x. x.0) h in cc p

-- In every world the operation returns, and what it returns satisfies `Q`.
abbrev pub Returns {ℓ} : {W A : Type ℓ} → (A → Type ℓ) → Exec W A → Type ℓ
Returns {W = W} {A = A} Q m = (w : W) → (a : A) × (v : W) × (m w ≡ (ok a, v)) × Q a

module _ {ℓ} {W A B : Type ℓ} where
  pub Returns-bind :
      (P : A → Type ℓ) (Q : B → Type ℓ) (m : Exec W A) (f : A → Exec W B)
      → Returns P m
      → ((a : A) → P a → Returns Q (f a))
      → Returns Q (m >>= f)
  Returns-bind P Q m f r q w =
      let (a, w₁, e, p) = r w in
      let (b, v, e', h) = q a p w₁ in (b, v, ap (λ x. continue x f) e ∙ e', h)
