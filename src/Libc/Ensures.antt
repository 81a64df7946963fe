-- ===== src/Libc/Ensures.antt =====
-- Specifications of results: what holds of a value that is returned. Fuel never runs out.
use chttpd.Prelude.{◌≡◌, ◌≢◌, refl, [], ◌∷◌, arith}
use chttpd.Libc.{
  Bytes, out_of_fuel, Result, ok, reject, fault, fault-injective, ok-injective, ◌>>=◌, strcmp_eq,
}
use mathlib.Core.Path.{subst}

abbrev pub Ensures {ℓ} : {A : Type ℓ} → (A → Type 0) → Result A → Type 0
Ensures P (ok a) = P a
Ensures P reject = Unit
Ensures P (fault e) = e ≢ out_of_fuel

pub Ensures-bind {ℓ κ} :
    {A : Type ℓ} {B : Type κ} (P : A → Type 0) (Q : B → Type 0) (m : Result A) (f : A → Result B)
    → Ensures P m
    → ((a : A) → P a → Ensures Q (f a))
    → Ensures Q (m >>= f)
Ensures-bind P Q (ok a) f h k = k a h
Ensures-bind P Q reject f h k = tt
Ensures-bind P Q (fault e) f h k = h

-- The same where nothing is said of the first value but what it is.
pub Ensures-step {ℓ κ} :
    {A : Type ℓ} {B : Type κ} (Q : B → Type 0) (m : Result A) (f : A → Result B)
    → m ≢ fault out_of_fuel
    → ((a : A) → m ≡ ok a → Ensures Q (f a))
    → Ensures Q (m >>= f)
Ensures-step Q (ok a) f h k = k a refl
Ensures-step Q reject f h k = tt
Ensures-step Q (fault e) f h k = λ p. h (λ i. fault (p i))

pub Ensures-ok {ℓ} :
    {A : Type ℓ} (P : A → Type 0) (m : Result A) {a : A} → m ≡ ok a → Ensures P m → P a
Ensures-ok P (ok b) e h = subst P (ok-injective e) h
Ensures-ok P reject e h = cc
Ensures-ok P (fault d) e h = cc

pub Ensures-ends {ℓ} :
    {A : Type ℓ} (P : A → Type 0) (m : Result A) → Ensures P m → m ≢ fault out_of_fuel
Ensures-ends P (ok b) h = λ p. cc
Ensures-ends P reject h = λ p. cc
Ensures-ends {A} P (fault d) h = λ p. h (fault-injective A p)

pub strcmp_eq-ends : (a b : Bytes) → strcmp_eq a b ≢ fault out_of_fuel
unfolding strcmp_eq
strcmp_eq-ends [] b = ground arith
strcmp_eq-ends (c ∷ a) [] = ground arith
strcmp_eq-ends (c ∷ a) (d ∷ b) = ground (arith, strcmp_eq-ends a b)

pub Ensures-weaken {ℓ} :
    {A : Type ℓ} (P Q : A → Type 0) (m : Result A)
    → Ensures P m
    → ((a : A) → P a → Q a)
    → Ensures Q m
Ensures-weaken P Q (ok a) h k = k a h
Ensures-weaken P Q reject h k = tt
Ensures-weaken P Q (fault e) h k = h
