-- ===== src/Common/Results.antt =====
-- Results of code that can go wrong beyond its return values: a `fault` is undefined behaviour, a
-- failed assertion or an exception that nothing in the repository catches.
use mathlib.Core.Path.{◌≡◌, refl}
use mathlib.Core.Logic.{◌⊎◌, inl, inr}
use mathlib.Core.Bool.{Bool, true, false, not, ◌&&◌}

pub data Fault : Type 0 where
  assertion : Fault
  out_of_bounds : Fault
  int_overflow : Fault
  exception : Fault
  out_of_fuel : Fault

pub data Result {ℓ} (A : Type ℓ) : Type ℓ where
  ok : A → Result A
  fault : Fault → Result A

infixl 5 ◌>>=◌ ◌>>◌
abbrev pub ◌>>=◌ {ℓ κ} : {A : Type ℓ} {B : Type κ} → Result A → (A → Result B) → Result B
ok a >>= f = f a
fault e >>= f = fault e

abbrev pub ◌>>◌ {ℓ} : {B : Type ℓ} → Result (Unit {0}) → Result B → Result B
m >> k = m >>= λ _. k

abbrev pub guard : Bool → Fault → Result (Unit {0})
guard true e = ok tt
guard false e = fault e

-- Total correctness: the code returns, and what it returns satisfies `P`.
pub data Returns {ℓ κ} {A : Type ℓ} (P : A → Type κ) : Result A → Type (ℓ ⊔ κ) where
  returns : {a : A} → P a → Returns P (ok a)

module _ {ℓ κ μ ν} {A : Type ℓ} {B : Type μ} {P : A → Type κ} {Q : B → Type ν} where
  pub Returns-bind :
      {r : Result A} (k : A → Result B)
      → Returns P r
      → ((a : A) → P a → Returns Q (k a))
      → Returns Q (r >>= k)
  Returns-bind k (returns p) next = next _ p

module _ {ℓ κ μ} {A : Type ℓ} {P : A → Type κ} {Q : A → Type μ} where
  pub Returns-mono : {r : Result A} → Returns P r → ((a : A) → P a → Q a) → Returns Q r
  Returns-mono (returns p) weaken = returns (weaken _ p)

pub ok-injective {ℓ} : {A : Type ℓ} {a b : A} → ok a ≡ ok b → a ≡ b
ok-injective e = cc

module _ {ℓ κ} {A : Type ℓ} {B : Type κ} where
  -- What follows a result matters only at the value that it gives.
  pub bind-cong :
      (m : Result A) (f g : A → Result B) → ((a : A) → m ≡ ok a → f a ≡ g a) → (m >>= f) ≡ (m >>= g)
  bind-cong (ok a) f g same = same a refl
  bind-cong (fault e) f g same = refl

module _ {ℓ κ μ} {A : Type ℓ} {B : Type κ} {C : Type μ} where
  pub bind_assoc :
      (m : Result A) (f : A → Result B) (g : B → Result C)
      → (m >>= f >>= g) ≡ (m >>= λ a. f a >>= g)
  bind_assoc (ok a) f g = refl
  bind_assoc (fault e) f g = refl

module _ {ℓ κ μ} {A : Type ℓ} {P : A → Type κ} {Q : A → Type μ} where
  pub Returns-and : {r : Result A} → Returns P r → ((a : A) → r ≡ ok a → Q a) → Returns Q r
  Returns-and (returns p) next = returns (next _ refl)

module _ {ℓ κ} {A : Type ℓ} {P : A → Type κ} where
  pub Returns-eq : {r : Result A} → Returns P r → Returns (λ a. P a × (r ≡ ok a)) r
  Returns-eq (returns p) = returns (p, refl)

-- Partial correctness: the code ends with a fault, or returns something that satisfies `P`.
pub data OrFault {ℓ κ} {A : Type ℓ} (P : A → Type κ) : Result A → Type (ℓ ⊔ κ) where
  fine : {a : A} → P a → OrFault P (ok a)
  faulty : {f : Fault} → OrFault P (fault f)

module _ {ℓ κ μ ν} {A : Type ℓ} {B : Type μ} {P : A → Type κ} {Q : B → Type ν} where
  pub OrFault-bind :
      {r : Result A} (k : A → Result B)
      → OrFault P r
      → ((a : A) → P a → OrFault Q (k a))
      → OrFault Q (r >>= k)
  OrFault-bind k (fine p) next = next _ p
  OrFault-bind k faulty next = faulty

module _ {ℓ μ ν} {A : Type ℓ} {B : Type μ} {Q : B → Type ν} where
  pub OrFault-after :
      (r : Result A) (k : A → Result B) → ((a : A) → OrFault Q (k a)) → OrFault Q (r >>= k)
  OrFault-after (ok a) k next = next a
  OrFault-after (fault f) k next = faulty

module _ {ℓ κ μ} {A : Type ℓ} {P : A → Type κ} {Q : A → Type μ} where
  pub OrFault-mono : {r : Result A} → OrFault P r → ((a : A) → P a → Q a) → OrFault Q r
  OrFault-mono (fine p) weaken = fine (weaken _ p)
  OrFault-mono faulty weaken = faulty

  pub Returns-OrFault : {r : Result A} → Returns P r → OrFault Q r → Returns (λ a. P a × Q a) r
  Returns-OrFault (returns p) (fine q) = returns (p, q)

module _ {ℓ κ μ ν} {A : Type ℓ} {B : Type μ} {P : A → Type κ} where
  -- What follows code that returns, at any property of results.
  pub Returns-elim :
      (Q : Result B → Type ν) {r : Result A} (k : A → Result B)
      → Returns P r
      → ((a : A) → P a → Q (k a))
      → Q (r >>= k)
  Returns-elim Q k (returns p) next = next _ p

-- A check that passes, and an `assert` that does, whether it is compiled in or not.
pub guard_passes : (b : Bool) (f : Fault) → b ≡ true → guard b f ≡ ok tt
guard_passes b f e = rw e refl

pub guard-cases : (b : Bool) (f : Fault) → (guard b f ≡ ok tt) ⊎ (guard b f ≡ fault f)
guard-cases true f = inl refl
guard-cases false f = inr refl

-- An `assert` that breaks is compiled in.
pub assert_breaks : (a b : Bool) (f : Fault) → guard (not (a && b)) f ≡ fault f → a ≡ true
assert_breaks true b f e = refl
assert_breaks false b f e = cc

pub assert_passes : (a b : Bool) (f : Fault) → b ≡ false → guard (not (a && b)) f ≡ ok tt
assert_passes true b f e = rw e refl
assert_passes false b f e = refl

module _ {ℓ κ μ ν} {A : Type ℓ} {B : Type κ} {C : Type μ} {D : Type ν} where
  pub bind_oks :
      (m : Result A) (f : A → B) (g : B → C) (h : C → D)
      → (m >>= (λ a. ok (f a)) >>= (λ b. ok (g b)) >>= λ c. ok (h c))
        ≡ (m >>= λ a. ok (h (g (f a))))
  bind_oks (ok a) f g h = refl
  bind_oks (fault e) f g h = refl

-- two checks that a result came through
pub guards_passed {ℓ} :
    {A : Type ℓ} (g h : Bool) (f : Fault) (r x : A)
    → (guard g f >> (guard h f >> ok r)) ≡ ok x
    → (g ≡ true) × (h ≡ true) × (r ≡ x)
guards_passed true true f r x e = (refl, refl, ok-injective e)
guards_passed true false f r x e = cc
guards_passed false h f r x e = cc
