-- ===== src/Base/Result.antt =====
-- `Result` of the source's language.
use mathlib.Core.Path.{◌≡◌, refl, subst}
use mathlib.Core.Logic.{◌⊎◌, inl, inr}
use mathlib.Core.Bool.{Bool, true, false}
use kitmux_linux.Base.Tests.{if◌then◌else◌}

pub data Result {ℓ} (A E : Type ℓ) : Type ℓ where
  ok : A → Result A E
  err : E → Result A E

pub Result-cases {ℓ} :
    {A E : Type ℓ} → (r : Result A E) → ((e : E) × (r ≡ err e)) ⊎ ((x : A) × (r ≡ ok x))
Result-cases (ok x) = inr (x, refl)
Result-cases (err e) = inl (e, refl)

-- The operator `?`, and an early return of an error, unless the test holds.
module _ {ℓ} {A B E : Type ℓ} where
  infixl 5 ◌>>=◌ ◌>>◌
  abbrev pub ◌>>=◌ : Result A E → (A → Result B E) → Result B E
  run >>= next = elim run [ ok value ↦ next value | err error ↦ err error ]

  abbrev pub ◌>>◌ : Result A E → Result B E → Result B E
  run >> after = elim run [ ok _ ↦ after | err error ↦ err error ]

abbrev pub guard : {E : Type 0} → Bool → E → Result (Unit {0}) E
guard test error = if test then ok tt else err error

pub ok_inj {ℓ} : {A E : Type ℓ} {x y : A} → ◌≡◌ {A = Result A E} (ok x) (ok y) → x ≡ y
ok_inj h = cc

-- A test whose failure is an error has succeeded.
pub if-ok {ℓ} :
    {A E : Type ℓ} (b : Bool) (x : A) (e : E) {y : A}
    → (if b then ok x else err e) ≡ ok y
    → (b ≡ true) × (x ≡ y)
if-ok true x e h = (refl, ok_inj h)
if-ok false x e h = cc

-- A predicate of a result, if there is one; for what every branch of a program keeps.
pub data OnOk {A E : Type 0} (P : A → Type 0) : Result A E → Type 0 where
  on_ok : {a : A} → P a → OnOk P (ok a)
  on_err : {e : E} → OnOk P (err e)

module _ {A E : Type 0} {P : A → Type 0} where
  pub if-OnOk : (b : Bool) (x y : Result A E) → OnOk P x → OnOk P y → OnOk P (if b then x else y)
  if-OnOk true x y h k = h
  if-OnOk false x y h k = k

  pub guard-OnOk :
      (b : Bool) (e : E) (k : Result A E) → (b ≡ true → OnOk P k) → OnOk P (guard b e >>= λ _. k)
  guard-OnOk true e k h = h refl
  guard-OnOk false e k h = OnOk.on_err

  pub ok-OnOk : (r : Result A E) (a : A) → OnOk P r → r ≡ ok a → P a
  ok-OnOk _ a (OnOk.on_ok h) e = subst P (ok_inj e) h
  ok-OnOk _ a OnOk.on_err e = cc

pub bind-OnOk :
    {A B E : Type 0} {P : A → Type 0} {Q : B → Type 0} (m : Result A E) (f : A → Result B E)
    → OnOk P m
    → ((a : A) → P a → OnOk Q (f a))
    → OnOk Q (m >>= f)
bind-OnOk _ f (OnOk.on_ok h) k = k _ h
bind-OnOk _ f OnOk.on_err k = OnOk.on_err

-- A run that may fail, and then whatever its answer is.
pub bind_any-OnOk :
    {A B E : Type 0} {Q : B → Type 0} (m : Result A E) (f : A → Result B E)
    → ((a : A) → OnOk Q (f a))
    → OnOk Q (m >>= f)
bind_any-OnOk (ok a) f k = k a
bind_any-OnOk (err e) f k = OnOk.on_err
