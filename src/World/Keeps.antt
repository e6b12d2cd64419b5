-- ===== src/World/Keeps.antt =====
-- A property of the world that an action keeps, whatever its result; with a rule for each way to
-- build an action.
use yggmail_android.Base.{Bool, true, false, if◌then◌else◌, ◌≡◌, refl, ap}
use yggmail_android.World.{
  World, Error, Result, ok, err, Action, ◌>>=◌, pure, fail, ignore, query, Db, resume, on_error,
}

pub record Keeps {ℓ} {A : Type ℓ} (P : World → Type 0) (m : Action A) : Type ℓ where
  pub holds : (w : World) → P w → P (m w).1

module _ {ℓ κ} {A : Type ℓ} {B : Type κ} (P : World → Type 0) where
  pub resume-keeps :
      (f : A → Action B) (rw' : Result A × World)
      → P rw'.1
      → ((a : A) → Keeps P (f a))
      → P (resume f rw').1
  resume-keeps f (ok a, w) p h = (h a).holds w p
  resume-keeps f (err e, w) p h = p

  pub bind-Keeps :
      (m : Action A) (f : A → Action B) → Keeps P m → ((a : A) → Keeps P (f a)) → Keeps P (m >>= f)
  bind-Keeps m f km kf = record { holds = λ w p. resume-keeps f (m w) (km.holds w p) kf }

module _ {ℓ} {A : Type ℓ} (P : World → Type 0) where
  pub pure-Keeps : (a : A) → Keeps P (pure a)
  pure-Keeps a = record { holds = λ w p. p }

  pub fail-Keeps : (e : Error) → Keeps P (fail {A = A} e)
  fail-Keeps e = record { holds = λ w p. p }

  pub query-Keeps : (f : Db → Result A) → Keeps P (query f)
  query-Keeps f = record { holds = λ w p. p }

  pub ignore-Keeps : (m : Action A) → Keeps P m → Keeps P (ignore m)
  ignore-Keeps m k = record { holds = k.holds }

  pub on_error-keeps :
      (f : World → World) (r : Result A × World)
      → ((w : World) → P w → P (f w))
      → P r.1
      → P (on_error f r).1
  on_error-keeps f (ok a, w) h p = p
  on_error-keeps f (err e, w) h p = h w p

  pub if-Keeps : (b : Bool) (m n : Action A) → Keeps P m → Keeps P n → Keeps P (if b then m else n)
  if-Keeps true m n km kn = km
  if-Keeps false m n km kn = kn

pub err-not-ok {ℓ} : {A : Type ℓ} (e : Error) (a : A) → err e ≡ ok a → ⊥
err-not-ok e a h = cc

-- A call and what follows it succeed only if both do.
pub resume-ok {ℓ κ} :
    {A : Type ℓ} {B : Type κ} (f : A → Action B) (x : Result A × World) (b : B) (w : World)
    → resume f x ≡ (ok b, w)
    → (a : A) × (v : World) × (x ≡ (ok a, v)) × (f a v ≡ (ok b, w))
resume-ok f (ok a, v) b w h = (a, v, refl, h)
resume-ok f (err e, v) b w h = absurd (err-not-ok e b (ap (λ x. x.0) h))

-- A call that succeeds, followed by a function of its result.
pub resume-pure {ℓ κ} :
    {A : Type ℓ} {B : Type κ} (f : A → B) (x : Result A × World) (a : A)
    → x.0 ≡ ok a
    → (resume (λ b. pure (f b)) x).0 ≡ ok (f a)
resume-pure f (ok b, w) a h = cc h
resume-pure f (err e, w) a h = absurd (err-not-ok e a h)
