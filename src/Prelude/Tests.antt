-- ===== src/Prelude/Tests.antt =====
-- Boolean tests on the native numbers, the conditional, and case lemmas that keep the equation.
use Prim.Native.Nat.{ℕ, compare, Ordering}
use mathlib.Core.Path.{◌≡◌, refl}
use mathlib.Core.Logic.{◌⊎◌, inl, inr}
use mathlib.Core.Bool.{Bool, true, false}
use mathlib.Core.Option.{Option, none, some}

abbrev pub ltb : ℕ → ℕ → Bool
ltb a b = elim (compare a b) [ Ordering.lt ↦ true | _ ↦ false ]

abbrev pub leb : ℕ → ℕ → Bool
leb a b = elim (compare a b) [ Ordering.gt ↦ false | _ ↦ true ]

infix 50 ◌==◌
abbrev pub ◌==◌ : ℕ → ℕ → Bool
a == b = elim (compare a b) [ Ordering.eq ↦ true | _ ↦ false ]

infix 1 if◌then◌else◌
abbrev pub if◌then◌else◌ {ℓ} : {A : Type ℓ} → Bool → A → A → A
if true then x else y = x
if false then x else y = y

pub Bool-cases : (b : Bool) → (b ≡ true) ⊎ (b ≡ false)
Bool-cases true = inl refl
Bool-cases false = inr refl

-- `o ?? d` of the source.
abbrev pub or_else {ℓ} : {A : Type ℓ} → Option A → A → A
or_else none d = d
or_else (some a) d = a

abbrev pub is_some {ℓ} : {A : Type ℓ} → Option A → Bool
is_some none = false
is_some (some a) = true

module _ {ℓ} {A : Type ℓ} where
  pub if_then : (b : Bool) (x y : A) → b ≡ true → (if b then x else y) ≡ x
  if_then true x y h = refl
  if_then false x y h = cc

  pub if_else : (b : Bool) (x y : A) → b ≡ false → (if b then x else y) ≡ y
  if_else true x y h = cc
  if_else false x y h = refl

  -- A function of a conditional, by what it gives in the branches.
  pub if_map {κ} :
      {B : Type κ} (f : A → B) (b : Bool) (x y : A) (u v : B)
      → f x ≡ u
      → f y ≡ v
      → f (if b then x else y) ≡ (if b then u else v)
  if_map f true x y u v p q = p
  if_map f false x y u v p q = q

  pub if_same : (b : Bool) (x : A) → (if b then x else x) ≡ x
  if_same true x = refl
  if_same false x = refl

  pub if_elim {κ} :
      (P : A → Type κ) (b : Bool) (x y : A)
      → (b ≡ true → P x)
      → (b ≡ false → P y)
      → P (if b then x else y)
  if_elim P true x y p q = p refl
  if_elim P false x y p q = q refl
