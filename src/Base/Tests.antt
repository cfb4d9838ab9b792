-- ===== src/Base/Tests.antt =====
-- Boolean tests on the native numbers, the conditional, and case lemmas.
use Prim.Native.Nat.{ℕ, ◌≤◌, ◌<◌, compare, Ordering}
use mathlib.Core.Path.{◌≡◌, refl}
use mathlib.Core.Logic.{◌⊎◌, inl, inr}
use mathlib.Core.Bool.{Bool, true, false}
use mathlib.Core.Option.{Option, none, some}
use native.Mathlib.Omega.{arith}

abbrev pub ltb : ℕ → ℕ → Bool
ltb a b = elim (compare a b) [ Ordering.lt ↦ true | _ ↦ false ]

abbrev pub leb : ℕ → ℕ → Bool
leb a b = elim (compare a b) [ Ordering.gt ↦ false | _ ↦ true ]

infix 50 ◌==◌
abbrev pub ◌==◌ : ℕ → ℕ → Bool
a == b = elim (compare a b) [ Ordering.eq ↦ true | _ ↦ false ]

infix 1 if◌then◌else◌
abbrev pub if◌then◌else◌ {ℓ} : {A : Type ℓ} → Bool → A → A → A
if true then x else y = x
if false then x else y = y

pub Bool-cases : (b : Bool) → (b ≡ true) ⊎ (b ≡ false)
Bool-cases true = inl refl
Bool-cases false = inr refl

-- A test has one value.
pub contrary : {b : Bool} → b ≡ true → b ≡ false → ⊥
contrary {b = true} h h' = cc
contrary {b = false} h h' = cc

pub Option-cases {ℓ} : {A : Type ℓ} (o : Option A) → (o ≡ none) ⊎ ((a : A) × (o ≡ some a))
Option-cases none = inl refl
Option-cases (some a) = inr (a, refl)

-- A C array that is only read and written in range, as a function of the index.
abbrev pub update {ℓ} : {A : Type ℓ} (array : ℕ → A) (at : ℕ) (new : A) (i : ℕ) → A
update array at new i = if at == i then new else array i

-- A property of a conditional, from each branch with its test.
pub if_holds {ℓ κ} :
    {A : Type ℓ} (P : A → Type κ) (b : Bool) {x y : A}
    → (b ≡ true → P x)
    → (b ≡ false → P y)
    → P (if b then x else y)
if_holds P true p q = p refl
if_holds P false p q = q refl

-- The value of a conditional whose test fails.
pub else_taken {ℓ} :
    {A : Type ℓ} {b : Bool} (x : A) {y z : A} → b ≡ false → (if b then x else y) ≡ z → y ≡ z
else_taken {b = true} x fails h = cc
else_taken {b = false} x fails h = h

pub lt→ltb : {a b : ℕ} → a < b → ltb a b ≡ true
lt→ltb h = ground arith

pub le→ltb : {a b : ℕ} → b ≤ a → ltb a b ≡ false
le→ltb h = ground arith

pub ltb→lt : {a b : ℕ} → ltb a b ≡ true → a < b
ltb→lt h = ground arith

pub ==→≡ : {a b : ℕ} → (a == b) ≡ true → a ≡ b
==→≡ h = ground arith

-- A chain of fallible steps that gives a value has passed each of them.
pub step_passed {ℓ κ} :
    {A : Type ℓ} {B : Type κ} (o : Option A) (next : A → Option B) (r : B)
    → elim o [ none ↦ none | some a ↦ next a ] ≡ some r
    → (a : A) × (o ≡ some a) × (next a ≡ some r)
step_passed none next r h = cc
step_passed (some a) next r h = (a, refl, h)

pub guard_passed {ℓ} :
    {A : Type ℓ} (b : Bool) (o : Option A) (r : A)
    → (if b then none else o) ≡ some r
    → (b ≡ false) × (o ≡ some r)
guard_passed true o r h = cc
guard_passed false o r h = (refl, h)

-- A property of a case distinction on an option.
pub Option_holds {ℓ κ ν} :
    {A : Type ℓ} {B : Type κ} (P : B → Type ν) (o : Option A) {x : B} {f : A → B}
    → P x
    → ((a : A) → o ≡ some a → P (f a))
    → P (elim o [ none ↦ x | some a ↦ f a ])
Option_holds P none p q = p
Option_holds P (some a) p q = q a refl
