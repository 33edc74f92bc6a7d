-- ===== src/Bench/Names/Members.antt =====
-- What is in a filtered list, a joined one and the keys of one.
use zpq.Common.{◌≡◌, refl, sym, ap, subst, ◌∙◌, Bool, true, false, ◌||◌, List, [], ◌∷◌, inl, inr}
use zpq.Common.Tests.{Bool-cases}
use zpq.Bench.Names.{elem, filter, keys, flat_map}
use mathlib.Core.List.{Memᴰ}
use mathlib.Core.List.Memᴰ as Memᴰ
use Prim.Native.String.{String}
use text.Mathlib.Text.{◌==◌ as str_eq}
use text.Mathlib.TextEquality.{eq_iff}

pub elem-Mem : (x : String) (ys : List String) → elem x ys ≡ true → Memᴰ x ys
elem-Mem x [] h = cc
elem-Mem x (y ∷ ys) h = elim (Bool-cases (str_eq x y)) [
  | inl same ↦ Memᴰ.head ((eq_iff x y).0 same)
  | inr other ↦ Memᴰ.tail (elem-Mem x ys (rw other at h))
]

pub Mem-elem : (x : String) (ys : List String) → Memᴰ x ys → elem x ys ≡ true
Mem-elem x [] m = absurd (Memᴰ.not-nil m)
Mem-elem x (y ∷ ys) m = elim (Memᴰ.cases_cons m) [
  | inl same ↦ rw ((eq_iff x y).1 same) refl
  | inr later ↦ (rw (Mem-elem x ys later) (or-true (str_eq x y)))
]
  where
    or-true : (b : Bool) → b || true ≡ true
    or-true true = refl
    or-true false = refl

module _ {ℓ} {A : Type ℓ} where
  pub mem-of-filter :
      (test : A → Bool) (xs : List A) {a : A}
      → Memᴰ a (filter test xs)
      → Memᴰ a xs × (test a ≡ true)
  mem-of-filter test [] m = absurd (Memᴰ.not-nil m)
  mem-of-filter test (x ∷ xs) {a} m = elim (Bool-cases (test x)) [
    | inl yes_ ↦ elim (Memᴰ.cases_cons (rw yes_ at m)) [
      | inl same ↦ (Memᴰ.head same, ap test same ∙ yes_)
      | inr later ↦ let (there, passes) = mem-of-filter test xs later in (Memᴰ.tail there, passes)
    ]
    | inr no_ ↦
        let (there, passes) = mem-of-filter test xs (rw no_ at m) in (Memᴰ.tail there, passes)
  ]

  pub filter-mem :
      (test : A → Bool) (xs : List A) {a : A} → Memᴰ a xs → test a ≡ true → Memᴰ a (filter test xs)
  filter-mem test [] m h = m
  filter-mem test (x ∷ xs) m h = elim (Memᴰ.cases_cons m) [
    | inl same ↦ let here : test x ≡ true = ap test (sym same) ∙ h in rw here (Memᴰ.head same)
    | inr later ↦ elim (Bool-cases (test x)) [
      | inl yes_ ↦ rw yes_ (Memᴰ.tail (filter-mem test xs later h))
      | inr no_ ↦ rw no_ (filter-mem test xs later h)
    ]
  ]

  pub mem-of-flat_map {κ} :
      {B : Type κ} (f : A → List B) (xs : List A) {b : B}
      → Memᴰ b (flat_map f xs)
      → (a : A) × Memᴰ a xs × Memᴰ b (f a)
  mem-of-flat_map f [] m = absurd (Memᴰ.not-nil m)
  mem-of-flat_map f (x ∷ xs) m = elim (Memᴰ.append_cases (f x) m) [
    | inl here ↦ (x, Memᴰ.head refl, here)
    | inr later ↦ let (a, there, found) = mem-of-flat_map f xs later in (a, Memᴰ.tail there, found)
  ]

  pub flat_map-mem {κ} :
      {B : Type κ} (f : A → List B) (xs : List A) {a : A} {b : B}
      → Memᴰ a xs
      → Memᴰ b (f a)
      → Memᴰ b (flat_map f xs)
  flat_map-mem f [] m h = absurd (Memᴰ.not-nil m)
  flat_map-mem f (x ∷ xs) {b = b} m h = elim (Memᴰ.cases_cons m) [
    | inl same ↦ Memᴰ.append_left (flat_map f xs) (subst (λ a. Memᴰ b (f a)) same h)
    | inr later ↦ Memᴰ.append_right (f x) (flat_map-mem f xs later h)
  ]

module _ {ℓ} {A : Type ℓ} where
  pub keys-mem : (key : A → String) (xs : List A) {a : A} → Memᴰ a xs → Memᴰ (key a) (keys key xs)
  unfolding keys
  keys-mem key [] m = absurd (Memᴰ.not-nil m)
  keys-mem key (x ∷ xs) {a} m = elim (Memᴰ.cases_cons m) [
    | inl same ↦ Memᴰ.head (ap key same)
    | inr later ↦ elim (Bool-cases (str_eq (key a) (key x))) [
      | inl same ↦ Memᴰ.head ((eq_iff (key a) (key x)).0 same)
      | inr other ↦ Memᴰ.tail (filter-mem _ (keys key xs) (keys-mem key xs later) (rw other refl))
    ]
  ]

  pub mem-of-keys :
      (key : A → String) (xs : List A) {k : String}
      → Memᴰ k (keys key xs)
      → (a : A) × Memᴰ a xs × (key a ≡ k)
  unfolding keys
  mem-of-keys key [] m = absurd (Memᴰ.not-nil m)
  mem-of-keys key (x ∷ xs) m = elim (Memᴰ.cases_cons m) [
    | inl same ↦ (x, Memᴰ.head refl, sym same)
    | inr later ↦
        let (a, there, is_key) = mem-of-keys key xs (mem-of-filter _ (keys key xs) later).0 in
        (a, Memᴰ.tail there, is_key)
  ]
