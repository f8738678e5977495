-- ===== src/Exec/Rules.antt =====
-- The rules by which a composed method keeps a predicate of the state, also where it raises.
use calamari.Prelude.{Bool, true, false, Option, none, some, List, [], ◌∷◌, if◌then◌else◌}
use calamari.Exec.{
  Exception, Result, ok, err, Exec, continue, ◌>>=◌, ◌>>◌, when, require, or_raise, pure, each,
}

abbrev pub Keeps {ℓ} : {S A : Type 0} → (S → Type ℓ) → Exec S A → Type ℓ
Keeps {S = S} P m = (s : S) → P s → P (m s).1

module _ {ℓ} {S : Type 0} (P : S → Type ℓ) where
  pub pure-Keeps : {A : Type 0} (a : A) → Keeps P (pure a)
  pure-Keeps a s h = h

  pub bind-Keeps :
      {A B : Type 0} (m : Exec S A) (f : A → Exec S B)
      → Keeps P m
      → ((a : A) → Keeps P (f a))
      → Keeps P (m >>= f)
  bind-Keeps {A = A} m f km kf s h = go (m s).0 (m s).1 (km s h)
    where
      go : (r : Result A) (t : S) → P t → P (continue r f t).1
      go (ok a) t k = kf a t k
      go (err e) t k = k

  pub then-Keeps :
      {A B : Type 0} (m : Exec S A) (n : Exec S B) → Keeps P m → Keeps P n → Keeps P (m >> n)
  then-Keeps m n km kn = bind-Keeps m (λ _. n) km (λ _. kn)

  pub when-Keeps : (b : Bool) (m : Exec S (Unit {0})) → Keeps P m → Keeps P (when b m)
  when-Keeps true m k s h = k s h
  when-Keeps false m k s h = h

  pub if-Keeps :
      {A : Type 0} (b : Bool) (m n : Exec S A)
      → Keeps P m
      → Keeps P n
      → Keeps {A = A} P (if b then m else n)
  if-Keeps true m n km kn s h = km s h
  if-Keeps false m n km kn s h = kn s h

  pub require-Keeps : (b : Bool) (e : Exception) → Keeps P (require b e)
  require-Keeps true e s h = h
  require-Keeps false e s h = h

  pub or_raise-Keeps : {A : Type 0} (e : Exception) (o : Option A) → Keeps P (or_raise e o)
  or_raise-Keeps e none s h = h
  or_raise-Keeps e (some a) s h = h

  pub each-Keeps :
      {A : Type 0} (f : A → Exec S (Unit {0}))
      → ((a : A) → Keeps P (f a))
      → (l : List A) → Keeps P (each f l)
  each-Keeps f k [] s h = h
  each-Keeps f k (a ∷ l) s h = bind-Keeps (f a) (λ _. each f l) (k a) (λ _. each-Keeps f k l) s h

-- What holds after a method: of its value and the state, or of the state that a raise left.
abbrev pub After {ℓ} : {S A : Type 0} → (A → S → Type ℓ) → (S → Type ℓ) → Result A × S → Type ℓ
After Q E (ok a, s) = Q a s
After Q E (err e, s) = E s

abbrev pub Ends {ℓ} :
    {S A : Type 0} → (S → Type ℓ) → (A → S → Type ℓ) → (S → Type ℓ) → Exec S A → Type ℓ
Ends {S = S} P Q E m = (s : S) → P s → After Q E (m s)

module _ {ℓ} {S : Type 0} where
  pub bind-Ends :
      {A B : Type 0} (P : S → Type ℓ) (Q : A → S → Type ℓ) (R : B → S → Type ℓ) (E : S → Type ℓ)
      (m : Exec S A) (f : A → Exec S B)
      → Ends P Q E m
      → ((a : A) → Ends (Q a) R E (f a))
      → Ends P R E (m >>= f)
  bind-Ends {A = A} P Q R E m f km kf s h = go (m s).0 (m s).1 (km s h)
    where
      go : (r : Result A) (t : S) → After Q E (r, t) → After R E (continue r f t)
      go (ok a) t k = kf a t k
      go (err e) t k = k

  pub Ends-Keeps : {A : Type 0} (P : S → Type ℓ) (m : Exec S A) → Ends P (λ _. P) P m → Keeps P m
  Ends-Keeps {A = A} P m k s h = go (m s).0 (m s).1 (k s h)
    where
      go : (r : Result A) (t : S) → After (λ _. P) P (r, t) → P t
      go (ok a) t x = x
      go (err e) t x = x

  pub Keeps-Ends :
      {A : Type 0} (P E : S → Type ℓ) (m : Exec S A)
      → ((s : S) → P s → E s)
      → Keeps P m
      → Ends P (λ _. P) E m
  Keeps-Ends {A = A} P E m w k s h = go (m s).0 (m s).1 (k s h)
    where
      go : (r : Result A) (t : S) → P t → After (λ _. P) E (r, t)
      go (ok a) t x = x
      go (err e) t x = w t x

  -- A method after one that keeps what it needs
  pub then-Ends :
      {A B : Type 0} (P E : S → Type ℓ) (Q : B → S → Type ℓ) (m : Exec S A) (n : Exec S B)
      → ((s : S) → P s → E s)
      → Keeps P m
      → Ends P Q E n
      → Ends P Q E (m >> n)
  then-Ends P E Q m n w k kn = bind-Ends P (λ _. P) Q E m (λ _. n) (Keeps-Ends P E m w k) (λ _. kn)

  pub after-Ends :
      {A B : Type 0} (P : S → Type ℓ) (Q : A → S → Type ℓ) (E : S → Type ℓ) (m : Exec S A)
      (f : A → Exec S B)
      → Ends P Q E m
      → ((a : A) (s : S) → Q a s → E (f a s).1)
      → (s : S) → P s
      → E ((m >>= f) s).1
  after-Ends {A = A} P Q E m f k kf s h = go (m s).0 (m s).1 (k s h)
    where
      go : (r : Result A) (t : S) → After Q E (r, t) → E (continue r f t).1
      go (ok a) t x = kf a t x
      go (err e) t x = x
