-- ===== src/Common/Result.antt =====
-- The outcome of a Python call: a value, an exception by its class, or a model loop's exhausted fuel.
use mathlib.Core.Path.{◌≡◌, refl}
use mathlib.Core.Logic.{◌≢◌}
use mathlib.Core.Bool.{Bool, true, false}

-- The exception classes that the modelled code raises or lets through.
pub data Exn : Type 0 where
  index_error value_error type_error attribute_error key_error struct_error : Exn
  assertion_error refused worker_failed system_exit : Exn

-- `out_of_fuel` is no Python outcome; theorems show that it does not occur.
pub data Result {ℓ} (A : Type ℓ) : Type ℓ where
  ok : A → Result A
  raised : Exn → Result A
  out_of_fuel : Result A

infixl 5 ◌>>=◌ ◌>>◌
abbrev pub ◌>>=◌ {ℓ κ} : {A : Type ℓ} {B : Type κ} → Result A → (A → Result B) → Result B
out_of_fuel >>= next = out_of_fuel
raised e >>= next = raised e
ok a >>= next = next a

-- `assert test`, or `if not test: raise failure`
abbrev pub guard : Bool → Exn → Result (Unit {0})
guard false failure = raised failure
guard true failure = ok tt

abbrev pub ◌>>◌ {ℓ} : {B : Type ℓ} → Result (Unit {0}) → Result B → Result B
first >> second = first >>= λ _. second

-- Whichever way the run ends, its fuel lasted; a value it gives satisfies `P`.
pub data Ends {ℓ κ} {A : Type ℓ} (P : A → Type κ) : Result A → Type (ℓ ⊔ κ) where
  gives : {a : A} → P a → Ends P (ok a)
  raises : {e : Exn} → Ends P (raised e)

module _ {ℓ κ} {A : Type ℓ} {P : A → Type κ} where
  pub Ends-ne : {r : Result A} → Ends P r → r ≢ out_of_fuel
  Ends-ne (gives h) = cc
  Ends-ne raises = cc

  pub Ends-bind {ℓ' κ'} :
      {B : Type ℓ'} {Q : B → Type κ'} {r : Result A} {f : A → Result B}
      → Ends P r
      → ((a : A) → P a → Ends Q (f a))
      → Ends Q (r >>= f)
  Ends-bind (gives {a} h) k = k a h
  Ends-bind raises k = raises

  pub Ends-if :
      (b : Bool) {x y : Result A}
      → (b ≡ true → Ends P x)
      → (b ≡ false → Ends P y)
      → Ends P (elim b [ true ↦ x | false ↦ y ])
  Ends-if true hx hy = hx refl
  Ends-if false hx hy = hy refl

pub ok-injective {ℓ} : {A : Type ℓ} {a b : A} → ok a ≡ ok b → a ≡ b
ok-injective h = cc

-- What a bind that gives a value went through.
pub >>=-eq-ok {ℓ κ} :
    {A : Type ℓ} {B : Type κ} (first : Result A) (next : A → Result B) {last : B}
    → (first >>= next) ≡ ok last
    → (value : A) × (first ≡ ok value) × (next value ≡ ok last)
>>=-eq-ok (raised e) next ends = cc
>>=-eq-ok out_of_fuel next ends = cc
>>=-eq-ok (ok value) next ends = (value, refl, ends)

pub guard-eq-ok : (b : Bool) (e : Exn) (u : Unit {0}) → guard b e ≡ ok u → b ≡ true
guard-eq-ok true e u h = refl
guard-eq-ok false e u h = cc

-- What a guarded step that gives a value went through.
pub guard->>-eq-ok {ℓ} :
    {B : Type ℓ} (test : Bool) (failure : Exn) {later : Result B} {last : B}
    → (guard test failure >> later) ≡ ok last
    → (test ≡ true) × (later ≡ ok last)
guard->>-eq-ok true failure ends = (refl, ends)
guard->>-eq-ok false failure ends = cc
