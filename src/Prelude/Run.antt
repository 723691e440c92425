-- ===== src/Prelude/Run.antt =====
-- Runs of code that can call `std::abort` or stay in a loop for ever.
use Prim.Native.Nat.{ℕ}
use mathlib.Core.List.{List}
use mathlib.Core.Bool.{Bool, true, false}
use pmr_market_simulator.Prelude.Tests.{if◌then◌else◌}
use mathlib.Core.Path.{◌≡◌, refl}
use mathlib.Core.Logic.{◌⊎◌, inl, inr}

-- `abort`: the process ended by `std::abort`. `spin`: a loop that never ends. `throw`: a
-- `std::runtime_error` with its text.
pub data Run {ℓ} (A : Type ℓ) : Type ℓ where
  ok : A → Run A
  abort : Run A
  spin : Run A
  throw : List ℕ → Run A

infixl 5 ◌>>=◌
abbrev pub ◌>>=◌ {ℓ κ} : {A : Type ℓ} {B : Type κ} → Run A → (A → Run B) → Run B
ok a >>= f = f a
abort >>= f = abort
spin >>= f = spin
throw what >>= f = throw what

-- The run returns, and the result has the property.
abbrev pub Returns {ℓ κ} : {A : Type ℓ} → Run A → (A → Type κ) → Type (ℓ ⊔ κ)
Returns {A} m P = (a : A) × (m ≡ ok a) × P a

pub ok-injective {ℓ} : {A : Type ℓ} (a b : A) → ok a ≡ ok b → a ≡ b
ok-injective a b e = cc

-- Two continuations of one run that agree up to a function agree after it.
pub bind_both {ℓ κ μ} :
    {A : Type ℓ} {B : Type κ} {C : Type μ} (g : B → C) (m : Run A) {f : A → Run B} {h : A → Run C}
    → ((a : A) (b : B) → f a ≡ ok b → h a ≡ ok (g b))
    → (b : B) → m >>= f ≡ ok b
    → m >>= h ≡ ok (g b)
bind_both g (ok a) agree b e = agree a b e
bind_both g abort agree b e = absurd (let bad : abort ≡ ok b = e in cc)
bind_both g spin agree b e = absurd (let bad : spin ≡ ok b = e in cc)
bind_both g (throw what) agree b e = absurd (let bad : throw what ≡ ok b = e in cc)

-- A run of two parts that returns has a first part that returns.
pub ok-bind {ℓ κ} :
    {A : Type ℓ} {B : Type κ} (m : Run A) (f : A → Run B) (b : B)
    → m >>= f ≡ ok b
    → (a : A) × (m ≡ ok a) × (f a ≡ ok b)
ok-bind (ok a) f b e = (a, refl, e)
ok-bind abort f b e = absurd (let bad : abort ≡ ok b = e in cc)
ok-bind spin f b e = absurd (let bad : spin ≡ ok b = e in cc)
ok-bind (throw what) f b e = absurd (let bad : throw what ≡ ok b = e in cc)

-- The run returns a result with the property, or it throws.
pub data EndsWith {ℓ} {A : Type ℓ} (P : A → Type 0) : Run A → Type ℓ where
  returned : (a : A) → P a → EndsWith P (ok a)
  thrown : (what : List ℕ) → EndsWith P (throw what)

pub bind-EndsWith {ℓ κ} :
    {A : Type ℓ} {B : Type κ} (P : A → Type 0) (Q : B → Type 0) (m : Run A) (f : A → Run B)
    → EndsWith P m
    → ((a : A) → P a → EndsWith Q (f a))
    → EndsWith Q (m >>= f)
bind-EndsWith P Q _ f (returned a h) k = k a h
bind-EndsWith P Q _ f (thrown what) k = thrown what

-- A check that throws when it fails.
pub guard-EndsWith {ℓ} :
    {A : Type ℓ} (P : A → Type 0) (fails : Bool) (what : List ℕ) (m : Run A)
    → EndsWith P m
    → EndsWith P (if fails then throw what else m)
guard-EndsWith P true what m h = thrown what
guard-EndsWith P false what m h = h

pub require-EndsWith {ℓ} :
    {A : Type ℓ} (P : A → Type 0) (holds : Bool) (what : List ℕ) (m : Run A)
    → EndsWith P m
    → EndsWith P (if holds then m else throw what)
require-EndsWith P true what m h = h
require-EndsWith P false what m h = thrown what

pub EndsWith-cases {ℓ} :
    {A : Type ℓ} (P : A → Type 0) (m : Run A)
    → EndsWith P m
    → ((a : A) × (m ≡ ok a) × P a) ⊎ ((what : List ℕ) × (m ≡ throw what))
EndsWith-cases P _ (returned a h) = inl (a, refl, h)
EndsWith-cases P _ (thrown what) = inr (what, refl)

-- The run returns a result with the property, or it throws and there is a reason.
pub data Tries {ℓ} {A : Type ℓ} (Reason : Type 0) (P : A → Type 0) : Run A → Type ℓ where
  came_back : (a : A) → P a → Tries Reason P (ok a)
  gave_up : (what : List ℕ) → Reason → Tries Reason P (throw what)

pub bind-Tries {ℓ κ} :
    {A : Type ℓ} {B : Type κ} {Reason : Type 0} (P : A → Type 0) (Q : B → Type 0) (m : Run A)
    (f : A → Run B)
    → Tries Reason P m
    → ((a : A) → P a → Tries Reason Q (f a))
    → Tries Reason Q (m >>= f)
bind-Tries P Q _ f (came_back a h) k = k a h
bind-Tries P Q _ f (gave_up what why) k = gave_up what why

pub weaken-Tries {ℓ} :
    {A : Type ℓ} {Reason : Type 0} {P Q : A → Type 0} {m : Run A}
    → ((a : A) → P a → Q a)
    → Tries Reason P m
    → Tries Reason Q m
weaken-Tries f (came_back a h) = came_back a (f a h)
weaken-Tries f (gave_up what why) = gave_up what why

pub EndsWith-Tries {ℓ} :
    {A : Type ℓ} {Reason : Type 0} {P Q : A → Type 0} {m : Run A}
    → Reason
    → ((a : A) → P a → Q a)
    → EndsWith P m
    → Tries Reason Q m
EndsWith-Tries why f (returned a h) = came_back a (f a h)
EndsWith-Tries why f (thrown what) = gave_up what why
