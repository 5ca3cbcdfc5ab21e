-- ===== src/Contracts/Result.antt =====
-- `Result<A, E>` and its `?` operator.
use mahi_ai.Prelude.{◌≡◌, ◌⊎◌, refl, Bool, true, false, inl, inr, if◌then◌else◌}

pub data Result {ℓ κ} (E : Type ℓ) (A : Type κ) : Type (ℓ ⊔ κ) where
  ok : A → Result E A
  err : E → Result E A

infixl 5 ◌>>=◌
abbrev pub ◌>>=◌ {ℓ κ μ} :
    {E : Type ℓ} {A : Type κ} {B : Type μ} → Result E A → (A → Result E B) → Result E B
ok a >>= f = f a
err x >>= f = err x

abbrev pub is_ok {ℓ κ} : {E : Type ℓ} {A : Type κ} → Result E A → Bool
is_ok (ok a) = true
is_ok (err x) = false

-- A result that says only whether it worked.
pub Result-cases {ℓ} :
    {E : Type ℓ} (r : Result E (Unit {0})) → (r ≡ ok tt) ⊎ ((e : E) × (r ≡ err e))
Result-cases (ok tt) = inl refl
Result-cases (err e) = inr (e, refl)

-- `Result::map_err`
abbrev pub map_err {ℓ κ μ} :
    {E : Type ℓ} {F : Type κ} {A : Type μ} → (E → F) → Result E A → Result F A
map_err f (ok a) = ok a
map_err f (err e) = err (f e)

-- A chain that succeeds has a first result, and the rest of it succeeds.
pub bind_ok {ℓ κ μ} :
    {E : Type ℓ} {A : Type κ} {B : Type μ} (r : Result E A) (f : A → Result E B) (b : B)
    → r >>= f ≡ ok b
    → (a : A) × (r ≡ ok a) × (f a ≡ ok b)
bind_ok (ok a) f b h = (a, refl, h)
bind_ok (err e) f b h = absurd (cc h)

pub map_err_ok {ℓ κ μ} :
    {E : Type ℓ} {F : Type κ} {A : Type μ} (f : E → F) (r : Result E A) (a : A)
    → map_err f r ≡ ok a
    → r ≡ ok a
map_err_ok f (ok a) b h = cc h
map_err_ok f (err e) b h = absurd (cc h)

-- A result that a test did not refuse.
pub guard_ok {ℓ κ} :
    {E : Type ℓ} {A : Type κ} (b : Bool) (x : E) (r : Result E A) (a : A)
    → (if b then err x else r) ≡ ok a
    → (b ≡ false) × (r ≡ ok a)
guard_ok true x r a h = absurd (cc h)
guard_ok false x r a h = (refl, h)
