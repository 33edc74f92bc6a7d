-- ===== src/Walker/Footer/Follows.antt =====
-- The walk over a struct or a list makes of it what Meaning says, and ends where the reader ends.
use zpq.Common.{
  ℕ, zero, suc, pred, ◌≡◌, refl, sym, ap, subst, ◌∙◌, false, List, [], ◌∷◌, ◌++◌, ◌/◌, ◌^◌, inl,
  inr, bit_and,
}
use mathlib.Core.List.{append_assoc, append-nil}
use zpq.Common.Lists.{length}
use zpq.Common.Tests.{◌==◌, Bool-cases}
use zpq.Common.Int.{ℤ, pos, eqb_ℤ}
use zpq.Common.Result.{Result, ok, raised, out_of_fuel, ◌>>=◌, >>=-eq-ok, ok-injective}
use zpq.Thrift.Value.{Value, Fields, list, struct, field, bool, int, bytes}
use zpq.Thrift.Cursor.{Cursor, Read, byte, pure}
use zpq.Thrift.Cursor as C
use zpq.Thrift.Reader.{read_items, read_field, read_fields, field_id, value}
use zpq.Walker.{walk_id}
use zpq.Walker.Agreement.{IsBytes, NoFlags, byte-IsBytes, field_id-agrees, skip-Skips, gives_value}
use zpq.Walker.Footer.{walk_fields, over_fields, walk_items, pass_by, enter_at, append_each}
use zpq.Walker.Footer.Inside.{struct_inside, list_inside}
use zpq.Walker.Footer.Meaning.{
  fold_fields, of_struct, collect, of_list, at_field, AllFields, IsStruct, AllItems, IsList,
  AtField,
}

-- What a walk that means r gives, where it ends.
abbrev pub ends : {S : Type 0} → Result S → Cursor → Result (S × Cursor)
ends r c = r >>= λ s. ok (s, c)

-- Where `reading` gives a value of which `P` holds, `walking` does to its state what `means` says, an exception
-- included, and it ends at the same place.
abbrev pub Walks :
    {S A : Type 0} → (A → Type 0) → (A → S → Result S) → Read A → (S → Read S) → Type 0
Walks {S} {A} P means reading walking =
    (s : S) (c : Cursor) (a : A) (c' : Cursor)
    → IsBytes c
    → reading c ≡ ok (a, c')
    → P a
    → (walking s c ≡ ends (means a s) c') × IsBytes c'

-- A step that means r, and then the rest from its result.
pub then_rest :
    {S T : Type 0} (r : Result S) (c c' : Cursor) (later : S → Read T) (rest : S → Result T)
    → ((s : S) → later s c ≡ ends (rest s) c')
    → (ends r c >>= λ (s, c). later s c) ≡ ends (r >>= rest) c'
then_rest (ok s) c c' later rest h = h s
then_rest (raised e) c c' later rest h = refl
then_rest out_of_fuel c c' later rest h = refl

-- The same at what the last step gave.
pub settle :
    {S A : Type 0} (m : A → Result S) {w : Result (S × Cursor)} {a b : A} {c c' : Cursor}
    → ◌≡◌ {A = Result (A × Cursor)} (ok (a, c)) (ok (b, c'))
    → (w ≡ ends (m a) c) × IsBytes c
    → (w ≡ ends (m b) c') × IsBytes c'
settle {S} {A} m {w} e h =
    subst (λ (r : A × Cursor). (w ≡ ends (m r.0) r.1) × IsBytes r.1) (ok-injective e) h

pub pass_by-Walks :
    {S : Type 0} (fuel t : ℕ) → Walks {S = S} NoFlags (λ v s. ok s) (value fuel t) (pass_by fuel t)
unfolding pass_by
pass_by-Walks fuel t s c v c' h e p =
    let (skipped, bytes') = skip-Skips fuel t c v c' h e p in (rw skipped refl, bytes')

-- A field that is passed by, or the one that is entered.
pub enter_at-Walks :
    {S : Type 0} (at : ℤ) (fuel : ℕ) (inside : S → Read S) (P : Value → Type 0)
    (m : Value → S → Result S)
    → ((t : ℕ) → Walks P m (value fuel t) inside)
    → (fid : ℤ) (t : ℕ)
    → Walks
        (AtField at P fid t)
        (at_field at m fid t)
        (value fuel t)
        (enter_at at inside fuel fid t)
unfolding enter_at
enter_at-Walks at fuel inside P m walks fid t s c v c' h e p = elim (Bool-cases (eqb_ℤ fid at)) [
  | inl here ↦ rw here (walks t s c v c' h e (rw here at p))
  | inr other ↦ rw other (pass_by-Walks fuel t s c v c' h e (rw other at p))
]

-- One round, over a field that is there.
one_round :
    {S : Type 0} (each : ℤ → ℕ → S → Read S) (means : ℤ → ℕ → Value → S → Result S) (rounds : ℕ)
    (last fid : ℤ) (b : ℕ) (v : Value) (fs : Fields) (s : S) (c c1 c2 c3 c4 : Cursor)
    → byte c ≡ ok (b, c1)
    → (b == 0) ≡ false
    → walk_id last (b / 2 ^ 4) c1 ≡ ok (fid, c2)
    → each fid (bit_and b 0x0f) s c2 ≡ ends (means fid (bit_and b 0x0f) v s) c3
    → ((s : S) → walk_fields each rounds fid s c3 ≡ ends (fold_fields means fs s) c4)
    → walk_fields each (suc rounds) last s c
      ≡ ends (fold_fields means (field fid (bit_and b 0x0f) v fs) s) c4
unfolding walk_fields fold_fields
one_round each means rounds last fid b v fs s c c1 c2 c3 c4 first more walked here later =
    rw (first, more, walked, here)
      (then_rest (means fid (bit_and b 0x0f) v s) c3 c4 (walk_fields each rounds fid)
        (fold_fields means fs) later)

module _ {S : Type 0} (read : ℕ → Read Value) (each : ℤ → ℕ → S → Read S)
    (means : ℤ → ℕ → Value → S → Result S) (Good : ℤ → ℕ → Value → Type 0)
    (walks : (fid : ℤ) (t : ℕ) → Walks (Good fid t) (means fid t) (read t) (each fid t)) where
  walk_fields-Walks :
      (rounds : ℕ) (last : ℤ)
      → Walks
          (AllFields Good)
          (fold_fields means)
          (read_fields read rounds last)
          (walk_fields each rounds last)
  unfolding read_fields read_field walk_fields fold_fields
  walk_fields-Walks zero last s c a c' h e p = cc
  walk_fields-Walks (suc rounds) last s c a c' h e p =
      let ((b, c1), first, rest) = >>=-eq-ok (byte c) _ e in
      let bytes1 = byte-IsBytes c h first in
      elim (Bool-cases (b == 0)) [
        | inl stop ↦
            settle (λ fs. fold_fields means fs s) (rw stop at rest) (rw (first, stop) refl, bytes1)
        | inr more ↦
            let ((fid, c2), second, rest2) =
              >>=-eq-ok (field_id last (b / 2 ^ 4) c1) _ (rw more at rest) in
            let ((v, c3), third, rest3) = >>=-eq-ok (read (bit_and b 0x0f) c2) _ rest2 in
            let ((fs, c4), fourth, made) = >>=-eq-ok (read_fields read rounds fid c3) _ rest3 in
            let (pv, pfs) : Good fid (bit_and b 0x0f) v × AllFields Good fs =
              subst (AllFields Good) (sym (gives_value made)) p in
            let (walked, bytes2) = field_id-agrees last (b / 2 ^ 4) c1 bytes1 second in
            let (here, bytes3) = walks fid (bit_and b 0x0f) s c2 _ _ bytes2 third pv in
            let later = λ (s : S). walk_fields-Walks rounds fid s c3 _ _ bytes3 fourth pfs in
            settle (λ fs. fold_fields means fs s) made
              (
                one_round each means rounds last fid b v fs s c c1 c2 c3 c4 first more walked here
                    (λ s. (later s).0),
                (later s).1,
              )
      ]

-- The fields of a struct that is entered.
pub over_fields-Walks :
    {S : Type 0} (fuel t : ℕ) (each : ℤ → ℕ → S → Read S) (means : ℤ → ℕ → Value → S → Result S)
    (Good : ℤ → ℕ → Value → Type 0)
    → ((fid : ℤ) (t : ℕ) → Walks (Good fid t) (means fid t) (value (pred fuel) t) (each fid t))
    → Walks (IsStruct Good) (of_struct means) (value fuel t) (over_fields each)
unfolding over_fields of_struct
over_fields-Walks fuel t each means Good walks s c (struct fs) c' h e p =
    walk_fields-Walks (value (pred fuel)) each means Good walks (suc (length c.unread)) (pos 0) s c
      fs c' h (struct_inside fuel t c e) p
over_fields-Walks fuel t each means Good walks s c (bool b) c' h e p = absurd p
over_fields-Walks fuel t each means Good walks s c (int z) c' h e p = absurd p
over_fields-Walks fuel t each means Good walks s c (bytes bs) c' h e p = absurd p
over_fields-Walks fuel t each means Good walks s c (list et vs) c' h e p = absurd p

-- The same of a walk that starts afresh.
abbrev pub Gives : {A B : Type 0} → (A → Type 0) → (A → Result B) → Read A → Read B → Type 0
Gives {A} P m reading walking =
    (c : Cursor) (a : A) (c' : Cursor)
    → IsBytes c
    → reading c ≡ ok (a, c')
    → P a
    → (walking c ≡ ends (m a) c') × IsBytes c'

module _ {A : Type 0} where
  regroup :
      (q : Result (List A)) (found : List A) (x : A) (c : Cursor)
      → ends (q >>= λ xs. ok ((found ++ (x ∷ [])) ++ xs)) c
        ≡ ends ((q >>= λ xs. ok (x ∷ xs)) >>= λ xs. ok (found ++ xs)) c
  regroup (ok xs) found x c = ap (λ s. ok (s, c)) (append_assoc found (x ∷ []) xs)
  regroup (raised e) found x c = refl
  regroup out_of_fuel found x c = refl

  -- One item, and then the others, which mean q.
  then_items :
      (r : Result A) (q : Result (List A)) (found : List A) (c c' : Cursor)
      (later : List A → Read (List A))
      → ((found : List A) → later found c ≡ ends (q >>= λ xs. ok (found ++ xs)) c')
      → (◌>>=◌ {B = List A × Cursor} (ends r c) (λ (x, c). ok (found ++ (x ∷ []), c)) >>= λ (s, c).
          later s c)
        ≡ ends ((r >>= λ x. q >>= λ xs. ok (x ∷ xs)) >>= λ xs. ok (found ++ xs)) c'
  then_items (ok x) q found c c' later h = h (found ++ (x ∷ [])) ∙ regroup q found x c'
  then_items (raised e) q found c c' later h = refl
  then_items out_of_fuel q found c c' later h = refl

  module _ (t : ℕ) (m : Value → Result A) (Good : ℕ → Value → Type 0) (reading : Read Value)
      (read : Read A) (gives : Gives (Good t) m reading read) where
    walk_items-Walks :
        (n : ℕ)
        → Walks
            (AllItems Good t)
            (λ vs found. collect m vs >>= λ xs. ok (found ++ xs))
            (read_items reading n)
            (walk_items (λ xs. C.◌>>=◌ read λ x. pure (xs ++ (x ∷ []))) n)
    unfolding read_items walk_items collect
    walk_items-Walks zero s c a c' h e p =
        settle (λ vs. collect m vs >>= λ xs. ok (s ++ xs)) e (rw append-nil refl, h)
    walk_items-Walks (suc n) s c a c' h e p =
        let ((v, c1), first, rest) = >>=-eq-ok (reading c) _ e in
        let ((vs, c2), second, made) = >>=-eq-ok (read_items reading n c1) _ rest in
        let (pv, pvs) : Good t v × AllItems Good t vs =
          subst (AllItems Good t) (sym (gives_value made)) p in
        let (here, bytes1) = gives c _ _ h first pv in
        let later = λ (s : List A). walk_items-Walks n s c1 _ _ bytes1 second pvs in
        settle (λ vs. collect m vs >>= λ xs. ok (s ++ xs)) made
          (
            rw here (
                then_items (m v) (collect m vs) s c1 c2
                  (walk_items (λ xs. C.◌>>=◌ read λ x. pure (xs ++ (x ∷ []))) n)
                  (λ s. (later s).0)),
            (later s).1,
          )

-- The items of a list that is entered, behind those found.
pub append_each-Walks :
    {A : Type 0} (fuel t : ℕ) (m : Value → Result A) (Good : ℕ → Value → Type 0) (read : Read A)
    → ((t : ℕ) → Gives (Good t) m (value (pred fuel) t) read)
    → Walks (IsList Good) (of_list m) (value fuel t) (append_each read)
unfolding append_each of_list
append_each-Walks fuel t m Good read gives s c (list et vs) c' h e (plain, p) =
    let (n, c1, header, items, bytes1) = list_inside fuel t c et vs h plain e in
    let (walked, bytes2) =
      walk_items-Walks et m Good (value (pred fuel) et) read (gives et) n s c1 vs c' bytes1 items
        p in
    (rw header walked, bytes2)
append_each-Walks fuel t m Good read gives s c (bool b) c' h e p = absurd p
append_each-Walks fuel t m Good read gives s c (int z) c' h e p = absurd p
append_each-Walks fuel t m Good read gives s c (bytes bs) c' h e p = absurd p
append_each-Walks fuel t m Good read gives s c (struct fs) c' h e p = absurd p
