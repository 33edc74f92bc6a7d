-- ===== src/Bench/Stalls/Laws.antt =====
-- Which cases are quarantined, and which are left to be run again.
use zpq.Common.{ℕ, ◌≤◌, ◌≡◌, ◌↔◌, refl, sym, ap, subst, ◌∙◌, List, [], ◌∷◌, ◌⊎◌, inl, inr, arith}
use zpq.Common.Tests.{ltb, leb, ◌==◌, Bool-cases, leb→le, ==_iff}
use zpq.Bench.Names.{filter, keys, is_nil, flat_map}
use zpq.Bench.Names.Members.{
  mem-of-filter, filter-mem, mem-of-flat_map, flat_map-mem, keys-mem, mem-of-keys,
}
use zpq.Bench.Stalls.{
  Record, Item, cohort, in_cohort, of_case, case_evidence, with_evidence, evidence, last_round,
  insert_round, rounds_of, last_rounds, final_evidence, disturbed_last, quarantine,
}
use mathlib.Core.List.{Memᴰ}
use mathlib.Core.List.Memᴰ as Memᴰ
use Prim.Native.String.{String}

insert_round-mem : (n : ℕ) (ms : List ℕ) {k : ℕ} → (k ≡ n) ⊎ Memᴰ k ms → Memᴰ k (insert_round n ms)
unfolding insert_round
insert_round-mem n [] (inl e) = Memᴰ.head e
insert_round-mem n [] (inr m) = absurd (Memᴰ.not-nil m)
insert_round-mem n (m ∷ ms) at_ = elim (Bool-cases (n == m)) [
  | inl same ↦
      rw same (elim at_ [ inl e ↦ Memᴰ.head (e ∙ (==_iff n m).0 same) | inr there ↦ there ])
  | inr other ↦ elim (Bool-cases (ltb n m)) [
    | inl below ↦ rw (other, below) (elim at_ [ inl e ↦ Memᴰ.head e | inr there ↦ Memᴰ.tail there ])
    | inr above ↦
        rw (other, above)
          (elim at_ [
            | inl e ↦ Memᴰ.tail (insert_round-mem n ms (inl e))
            | inr there ↦ elim (Memᴰ.cases_cons there) [
              | inl e ↦ Memᴰ.head e
              | inr later ↦ Memᴰ.tail (insert_round-mem n ms (inr later))
            ]
          ])
  ]
]

rounds_of-mem :
    (records : List Record) (cases : List String) {c : String}
    → Memᴰ c cases
    → Memᴰ (last_round records c) (rounds_of records cases)
unfolding rounds_of
rounds_of-mem records [] m = absurd (Memᴰ.not-nil m)
rounds_of-mem records (d ∷ cases) m =
    insert_round-mem (last_round records d) (rounds_of records cases) (elim (Memᴰ.cases_cons m) [
      | inl same ↦ inl (ap (last_round records) same)
      | inr later ↦ inr (rounds_of-mem records cases later)
    ])

with_evidence-case :
    (records : List Record) (cases : List String) {c : String} {items : List Item}
    → Memᴰ (c, items) (with_evidence records cases)
    → Memᴰ c cases
unfolding with_evidence
with_evidence-case records [] m = absurd (Memᴰ.not-nil m)
with_evidence-case records (d ∷ cases) m =
    elim (Bool-cases (is_nil (case_evidence (filter (of_case d) records)))) [
      | inl empty ↦ Memᴰ.tail (with_evidence-case records cases (rw empty at m))
      | inr full ↦ elim (Memᴰ.cases_cons (rw full at m)) [
        | inl same ↦ Memᴰ.head (ap (λ (e : String × List Item). e.0) same)
        | inr later ↦ Memᴰ.tail (with_evidence-case records cases later)
      ]
    ]

evidence-ran :
    (records : List Record) (rnd : ℕ) {c : String} {items : List Item}
    → Memᴰ (c, items) (evidence records rnd)
    → Memᴰ (last_round records c) (last_rounds records)
unfolding evidence cohort last_rounds
evidence-ran records rnd {c} m =
    let (r, there, is_c) =
      mem-of-keys Record.case_id (cohort records rnd)
        (with_evidence-case (cohort records rnd) (keys Record.case_id (cohort records rnd)) m) in
    let r_in = (mem-of-filter (in_cohort rnd) records there).0 in
    rounds_of-mem records (keys Record.case_id records) (
      subst (λ k. Memᴰ k (keys Record.case_id records)) is_c (keys-mem Record.case_id records r_in))

-- The evidence of a case's own last round, among that of a list of rounds.
final_evidence-of :
    (records : List Record) (rounds : List ℕ) {c : String} {items : List Item}
    → Memᴰ (c, items) (flat_map (final_evidence records) rounds)
    → Memᴰ (last_round records c) rounds × Memᴰ (c, items) (evidence records (last_round records c))
unfolding final_evidence
final_evidence-of records rounds {c} {items} m =
    let (rnd, of_rounds, there) = mem-of-flat_map (final_evidence records) rounds m in
    let (found, last) = mem-of-filter _ (evidence records rnd) there in
    let e : rnd ≡ last_round records c = sym ((==_iff _ _).0 last) in
    (
      subst (λ k. Memᴰ k rounds) e of_rounds,
      subst (λ k. Memᴰ (c, items) (evidence records k)) e found,
    )

final_evidence-mem :
    (records : List Record) (rounds : List ℕ) {c : String} {items : List Item}
    → Memᴰ (last_round records c) rounds
    → Memᴰ (c, items) (evidence records (last_round records c))
    → Memᴰ (c, items) (flat_map (final_evidence records) rounds)
unfolding final_evidence
final_evidence-mem records rounds {c} m found =
    flat_map-mem (final_evidence records) rounds m
      (filter-mem _ (evidence records (last_round records c)) found ((==_iff _ _).1 refl))

-- A case is quarantined, with an evidence, exactly when that is its evidence in the last round that ran it,
-- and that round is `max_round` or later.
pub quarantine_iff :
    (records : List Record) (max_round : ℕ) (c : String) (items : List Item)
    → Memᴰ (c, items) (quarantine records max_round) ↔ (
        Memᴰ (c, items) (evidence records (last_round records c))
        × (max_round ≤ last_round records c))
unfolding quarantine
quarantine_iff records max_round c items = (
  λ m.
      let (late, found) =
        final_evidence-of records (filter (leb max_round) (last_rounds records)) m in
      let (_, above) = mem-of-filter (leb max_round) (last_rounds records) late in
      (found, leb→le _ _ above),
  λ (found, above).
      final_evidence-mem records (filter (leb max_round) (last_rounds records))
        (filter-mem (leb max_round) (last_rounds records)
          (evidence-ran records (last_round records c) found) (ground (arith, above)))
        found,
)

-- A case with evidence in its last round is among those that `disturbed_last` names.
pub disturbed_last-mem :
    (records : List Record) (c : String) (items : List Item)
    → Memᴰ (c, items) (evidence records (last_round records c))
    → Memᴰ c (disturbed_last records)
unfolding disturbed_last
disturbed_last-mem records c items found =
    Memᴰ.map (λ (e : String × List Item). e.0)
      (final_evidence-mem records (last_rounds records)
        (evidence-ran records (last_round records c) found) found)
