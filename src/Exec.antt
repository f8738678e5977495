-- ===== src/Exec.antt =====
-- Python methods that mutate an object and may raise. What was written before a raise stays
-- written, so the state comes back beside the exception too.
pub mod Rules
use calamari.Prelude.{
  ◌≡◌, refl, ◌⊎◌, inl, inr, Bool, true, false, Option, none, some, List, [], ◌∷◌,
}

-- The exceptions that the modelled code raises, or that Python raises in it.
pub data Exception : Type 0 where
  assertion_error key_error attribute_error type_error : Exception
  not_implemented_error publish_error runtime_error value_error : Exception
  index_error not_found bucket_not_empty cluster_unavailable grains_not_found : Exception
  rados_error monitoring_error config_error schema_error plain_exception zero_division_error :
      Exception

pub data Result {ℓ} (A : Type ℓ) : Type ℓ where
  ok : A → Result A
  err : Exception → Result A

pub Result-cases {ℓ} :
    {A : Type ℓ} (r : Result A) → ((a : A) × (r ≡ ok a)) ⊎ ((e : Exception) × (r ≡ err e))
Result-cases (ok a) = inl (a, refl)
Result-cases (err e) = inr (e, refl)

abbrev pub Exec : Type 0 → Type 0 → Type 0
Exec S A = S → Result A × S

module _ {S A : Type 0} where
  abbrev pub pure : A → Exec S A
  pure a s = (ok a, s)

  abbrev pub raise : Exception → Exec S A
  raise e s = (err e, s)

  abbrev pub gets : (S → A) → Exec S A
  gets f s = (ok (f s), s)

  -- a dict's or an object's item that may be missing
  abbrev pub or_raise : Exception → Option A → Exec S A
  or_raise e none = raise e
  or_raise e (some a) = pure a

module _ {S A B : Type 0} where
  abbrev pub continue : Result A → (A → Exec S B) → Exec S B
  continue (ok a) f s = f a s
  continue (err e) f s = (err e, s)

  infixl 5 ◌>>=◌ ◌>>◌
  abbrev pub ◌>>=◌ : Exec S A → (A → Exec S B) → Exec S B
  ◌>>=◌ m f s = let (r, s') = m s in continue r f s'

  abbrev pub ◌>>◌ : Exec S A → Exec S B → Exec S B
  m >> n = m >>= λ _. n

module _ {S : Type 0} where
  abbrev pub modify : (S → S) → Exec S (Unit {0})
  modify f s = (ok tt, f s)

  -- `assert b`, and `if not b: raise e`
  abbrev pub require : Bool → Exception → Exec S (Unit {0})
  require true e s = (ok tt, s)
  require false e s = (err e, s)

  -- `if b: m`
  abbrev pub when : Bool → Exec S (Unit {0}) → Exec S (Unit {0})
  when true m s = m s
  when false m s = (ok tt, s)

  -- `try: m` / `except Exception as e: handler`
  abbrev pub catch : Exec S (Unit {0}) → (Exception → Exec S (Unit {0})) → Exec S (Unit {0})
  catch m handler s = let (r, s') = m s in elim r [ ok _ ↦ (ok tt, s') | err e ↦ handler e s' ]

module _ {S A : Type 0} where
  -- `for a in list: body(a)`
  abbrev pub each : (A → Exec S (Unit {0})) → List A → Exec S (Unit {0})
  each body [] s = (ok tt, s)
  each body (a ∷ as₁) s = continue (body a s).0 (λ _. each body as₁) (body a s).1
