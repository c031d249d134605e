-- ===== src/Prelude/Tests.antt =====
-- Boolean tests on the native numbers and on options, the conditional, and case lemmas.
use Prim.Native.Nat.{ℕ, ◌≤◌, ◌<◌, compare, Ordering}
use mathlib.Core.Path.{◌≡◌, refl, ap, subst}
use mathlib.Core.Logic.{◌↔◌, ◌⊎◌, inl, inr}
use mathlib.Core.Bool.{Bool, true, false}
use mathlib.Core.Option.{Option, none, some}
use native.Mathlib.Omega.{arith}

abbrev pub ltb : ℕ → ℕ → Bool
ltb a b = elim (compare a b) [ Ordering.lt ↦ true | _ ↦ false ]

abbrev pub leb : ℕ → ℕ → Bool
leb a b = elim (compare a b) [ Ordering.gt ↦ false | _ ↦ true ]

infix 50 ◌==◌
abbrev pub ◌==◌ : ℕ → ℕ → Bool
a == b = elim (compare a b) [ Ordering.eq ↦ true | _ ↦ false ]

infix 1 if◌then◌else◌
abbrev pub if◌then◌else◌ {ℓ} : {A : Type ℓ} → Bool → A → A → A
if true then x else y = x
if false then x else y = y

pub ltb→lt : (a b : ℕ) → ltb a b ≡ true → a < b
ltb→lt a b h = ground arith

pub leb→le : (a b : ℕ) → leb a b ≡ true → a ≤ b
leb→le a b h = ground arith

pub ==_iff : (a b : ℕ) → ((a == b) ≡ true) ↔ (a ≡ b)
==_iff a b = ground arith

pub Bool-cases : (b : Bool) → (b ≡ true) ⊎ (b ≡ false)
Bool-cases true = inl refl
Bool-cases false = inr refl

pub Option-cases {ℓ} : {A : Type ℓ} (o : Option A) → (o ≡ none) ⊎ ((a : A) × (o ≡ some a))
Option-cases none = inl refl
Option-cases (some a) = inr (a, refl)

abbrev pub is_some {ℓ} : {A : Type ℓ} → Option A → Bool
is_some none = false
is_some (some _) = true

abbrev pub or_else {ℓ} : {A : Type ℓ} → Option A → A → A
or_else none d = d
or_else (some a) d = a

abbrev pub implies : Bool → Bool → Bool
implies true b = b
implies false b = true

-- What holds of both branches holds of the conditional.
pub if_both {ℓ κ} :
    {X : Type ℓ} (Q : X → Type κ) (c : Bool) {yes no : X} → Q yes → Q no → Q (if c then yes else no)
if_both Q false on_yes on_no = on_no
if_both Q true on_yes on_no = on_yes

pub of_some {ℓ κ} : {A : Type ℓ} (P : A → Type κ) {a b : A} → some a ≡ some b → P a → P b
of_some P {a} h p = subst P (ap (λ o. or_else o a) h) p

-- A guarded option that has a value has it from the branch that is no `none`.
pub some_of_if {ℓ} :
    {A : Type ℓ} (b : Bool) {m : Option A} {a : A} → (if b then m else none) ≡ some a → m ≡ some a
some_of_if true h = h
some_of_if false h = cc

pub some_of_unless {ℓ} :
    {A : Type ℓ} (b : Bool) {m : Option A} {a : A} → (if b then none else m) ≡ some a → m ≡ some a
some_of_unless true h = cc
some_of_unless false h = h

-- A conditional's branches may each use how its test came out.
pub if_cases {ℓ κ} :
    {X : Type ℓ} (Q : X → Type κ) (c : Bool) {yes no : X}
    → (c ≡ true → Q yes)
    → (c ≡ false → Q no)
    → Q (if c then yes else no)
if_cases Q true on_yes on_no = on_yes refl
if_cases Q false on_yes on_no = on_no refl
