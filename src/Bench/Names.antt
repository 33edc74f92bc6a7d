-- ===== src/Bench/Names.antt =====
-- Sets and groups keyed by names, in the order in which a dict keeps them.
pub mod Members
use zpq.Common.{
  ℕ, ◌+◌, ◌≡◌, refl, Bool, true, false, not, ◌||◌, Option, none, some, List, [], ◌∷◌, ◌++◌, inl,
  inr,
}
use zpq.Common.Tests.{if◌then◌else◌, Bool-cases}
use Prim.Native.String.{String}
use text.Mathlib.Text.{◌==◌ as str_eq}
use text.Mathlib.TextEquality.{eq_iff}

-- `x in names`
abbrev pub elem : String → List String → Bool
elem x [] = false
elem x (y ∷ ys) = str_eq x y || elem x ys

module _ {ℓ} {A : Type ℓ} where
  -- The items that pass a test, in order.
  abbrev pub filter : (A → Bool) → List A → List A
  filter test [] = []
  filter test (a ∷ rest) = if test a then a ∷ filter test rest else filter test rest

module _ {ℓ} {A : Type ℓ} where
  -- The keys of the items, each once, in the order of their first occurrence.
  unfoldable pub keys : (A → String) → List A → List String
  keys key [] = []
  keys key (a ∷ rest) = key a ∷ filter (λ k. not (str_eq k (key a))) (keys key rest)

  abbrev pub is_nil : List A → Bool
  is_nil [] = true
  is_nil (a ∷ rest) = false

  abbrev pub flat_map {κ} : {B : Type κ} → (A → List B) → List A → List B
  flat_map f [] = []
  flat_map f (a ∷ rest) = f a ++ flat_map f rest
