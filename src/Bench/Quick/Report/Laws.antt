-- ===== src/Bench/Quick/Report/Laws.antt =====
-- The timings that count come in pairs, and a pass of the gate is a run that was checked.
use zpq.Common.{◌≡◌, refl, sym, ap, subst, ◌∙◌, Bool, true, ◌&&◌, List, [], ◌∷◌, inl, inr, arith}
use zpq.Common.Tests.{both, ◌==◌, Bool-cases, ==_iff}
use zpq.Bench.Quick.{Engine, Phase, hot_fresh, Case, Row, same_engine, same_phase, is_passed}
use zpq.Bench.Quick.Report.{stands_at, any_row, all_engines, selected}
use mathlib.Core.List.{Memᴰ}
use mathlib.Core.List.Memᴰ as Memᴰ
use text.Mathlib.Text.{◌==◌ as str_eq}
use text.Mathlib.TextEquality.{eq_iff}

any_row-Memᴰ :
    (test : Row → Bool) (rows : List Row)
    → any_row test rows ≡ true
    → (r : Row) × Memᴰ r rows × (test r ≡ true)
unfolding any_row
any_row-Memᴰ test [] h = cc
any_row-Memᴰ test (r ∷ rows) h = elim (Bool-cases (test r)) [
  | inl here ↦ (r, Memᴰ.head refl, here)
  | inr later ↦
      let (s, there, holds) = any_row-Memᴰ test rows (rw later at h) in (s, Memᴰ.tail there, holds)
]

all_engines-at :
    (test : Engine → Bool) (es : List Engine) {e : Engine}
    → all_engines test es ≡ true
    → Memᴰ e es
    → test e ≡ true
unfolding all_engines
all_engines-at test [] h m = absurd (Memᴰ.not-nil m)
all_engines-at test (x ∷ es) h m =
    let (here, later) = both (test x) (all_engines test es) h in
    elim (Memᴰ.cases_cons m) [
      | inl same ↦ ap test same ∙ here
      | inr there ↦ all_engines-at test es later there
    ]

same_engine-eq : (a b : Engine) → same_engine a b ≡ true → a ≡ b
unfolding same_engine
same_engine-eq a b h = ground arith

same_phase-eq : (a b : Phase) → same_phase a b ≡ true → a ≡ b
unfolding same_phase
same_phase-eq a b h = ground arith

stands_parts :
    (r : Row) (e : Engine) (s : Row)
    → stands_at r.case_id r.rep r.phase e s ≡ true
    → (s.case_id ≡ r.case_id)
      × (s.rep ≡ r.rep)
      × (s.phase ≡ r.phase)
      × (s.engine ≡ e)
      × (is_passed s.status ≡ true)
stands_parts r e s h =
    let (four, fine) =
      both
        (str_eq s.case_id r.case_id
          && (s.rep == r.rep)
          && same_phase s.phase r.phase
          && same_engine s.engine e)
        (is_passed s.status) h in
    let (three, engine) =
      both (str_eq s.case_id r.case_id && (s.rep == r.rep) && same_phase s.phase r.phase)
        (same_engine s.engine e) four in
    let (two, phase) =
      both (str_eq s.case_id r.case_id && (s.rep == r.rep)) (same_phase s.phase r.phase) three in
    let (name, rep) = both (str_eq s.case_id r.case_id) (s.rep == r.rep) two in
    (
      (eq_iff s.case_id r.case_id).0 name,
      (==_iff s.rep r.rep).0 rep,
      same_phase-eq s.phase r.phase phase,
      same_engine-eq s.engine e engine,
      fine,
    )

-- A timing counts only together with one of each engine of the case: of the same repetition, in the journal, and
-- counted itself.
pub selected-pairs :
    (c : Case) (r : Row) (rows : List Row) (hash_complete : Bool) (e : Engine)
    → selected c r rows hash_complete ≡ true
    → Memᴰ e c.engines
    → (s : Row) × Memᴰ s rows
      × (s.case_id ≡ r.case_id)
      × (s.rep ≡ r.rep)
      × (s.engine ≡ e)
      × (selected c s rows hash_complete ≡ true)
unfolding selected
selected-pairs c r rows hash_complete e h m =
    let others = all_engines (λ e. any_row (stands_at r.case_id r.rep r.phase e) rows) c.engines in
    let (first, engines) =
      both (hash_complete && same_phase r.phase hot_fresh && is_passed r.status) others h in
    let (hot, r_passed) =
      both (hash_complete && same_phase r.phase hot_fresh) (is_passed r.status) first in
    let (hashed, is_hot) = both hash_complete (same_phase r.phase hot_fresh) hot in
    let (s, inside, stands) =
      any_row-Memᴰ (stands_at r.case_id r.rep r.phase e) rows
        (all_engines-at _ c.engines engines m) in
    let (p, q, t, u, s_passed) = stands_parts r e s stands in
    let moved : all_engines (λ e. any_row (stands_at s.case_id s.rep s.phase e) rows) c.engines
        ≡ true =
      subst (λ x. all_engines (λ e. any_row (stands_at x s.rep s.phase e) rows) c.engines ≡ true)
        (sym p)
        (subst
          (λ x. all_engines (λ e. any_row (stands_at r.case_id x s.phase e) rows) c.engines ≡ true)
          (sym q)
          (subst
            (λ x. all_engines (λ e. any_row (stands_at r.case_id r.rep x e) rows) c.engines ≡ true)
            (sym t) engines)) in
    let s_hot : same_phase s.phase hot_fresh ≡ true = ap (λ x. same_phase x hot_fresh) t ∙ is_hot in
    (s, inside, p, q, u, all_four hashed s_hot s_passed moved)
  where
    all_four :
        {a b c d : Bool} → a ≡ true → b ≡ true → c ≡ true → d ≡ true → a && b && c && d ≡ true
    all_four p q r s = rw (p, q, r, s) refl
