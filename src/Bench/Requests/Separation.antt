-- ===== src/Bench/Requests/Separation.antt =====
-- What an accepted request declares.
use zpq.Common.{◌≡◌, sym, ap, ◌∙◌, true, false, not, List, [], ◌∷◌, inl, inr}
use zpq.Common.Tests.{both}
use zpq.Common.Lists.{All, All-of-Mem}
use zpq.Common.Result.{ok}
use zpq.Bench.Names.{elem, is_nil}
use zpq.Bench.Names.Members.{elem-Mem, Mem-elem}
use zpq.Bench.Requests.{names, disjoint, within, known_lanes, validate}
use zpq.Bench.Requests.Values.{Json, object, Members, get}
use mathlib.Core.List.{Memᴰ}
use mathlib.Core.List.Memᴰ as Memᴰ
use Prim.Native.String.{String}
use zpq.Bench.Requests.Checked.{not-false, check_request-Checked, validate-object}

disjoint-apart :
    (xs ys : List String) → disjoint xs ys ≡ true → (x : String) → Memᴰ x xs → ¬ Memᴰ x ys
unfolding disjoint
disjoint-apart [] ys h x m n = absurd (Memᴰ.not-nil m)
disjoint-apart (z ∷ xs) ys h x m n =
    let (here, later) = both (not (elem z ys)) (disjoint xs ys) h in
    elim (Memᴰ.cases_cons m) [
      | inl same ↦
          true-false (sym (Mem-elem x ys n) ∙ ap (λ z. elem z ys) same ∙ not-false (elem z ys) here)
      | inr there ↦ disjoint-apart xs ys later x there n
    ]
  where
    true-false : true ≡ false → ⊥
    true-false e = cc

within-Mem : (xs ys : List String) → within xs ys ≡ true → (x : String) → Memᴰ x xs → Memᴰ x ys
unfolding within
within-Mem [] ys h x m = absurd (Memᴰ.not-nil m)
within-Mem (z ∷ xs) ys h x m =
    let (here, later) = both (elem z ys) (within xs ys) h in
    elim (Memᴰ.cases_cons m) [
      | inl same ↦ elem-Mem x ys (ap (λ z. elem z ys) same ∙ here)
      | inr there ↦ within-Mem xs ys later x there
    ]

-- An accepted request is an object with some targets, none of which is among its controls, and only lanes that
-- there are.
pub validate-separates :
    (request : Json) (missing : List String)
    → validate request ≡ ok missing
    → (m : Members) × (targets : List String) × (controls : List String) × (lanes : List String)
      × (request ≡ object m)
      × (names (get "targets" m) ≡ ok targets)
      × (names (get "controls" m) ≡ ok controls)
      × (names (get "lanes" m) ≡ ok lanes)
      × (is_nil targets ≡ false)
      × All (λ x. ¬ Memᴰ x controls) targets
      × All (λ x. Memᴰ x known_lanes) lanes
validate-separates request missing h =
    let (m, same, checked) = validate-object request h in
    let p = check_request-Checked m checked in
    (
      m,
      p.targets,
      p.controls,
      p.lanes,
      same,
      p.is_targets,
      p.is_controls,
      p.is_lanes,
      p.some_targets,
      All-of-Mem p.targets (disjoint-apart p.targets p.controls p.apart),
      All-of-Mem p.lanes (within-Mem p.lanes known_lanes p.known),
    )
