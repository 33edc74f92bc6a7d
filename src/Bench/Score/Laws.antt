-- ===== src/Bench/Score/Laws.antt =====
-- The ship bar counts what it says, and what a met bar promises of every case.
use zpq.Common.{
  ℕ, ◌+◌, ◌*◌, ◌≤◌, min, ◌≡◌, refl, sym, ap, ◌∙◌, Bool, true, false, not, ◌&&◌, ◌||◌, Option, none,
  some, List, [], ◌∷◌, inl, inr, arith,
}
use zpq.Common.Tests.{ltb, Bool-cases, Option-cases}
use zpq.Common.Lists.{length}
use zpq.Bench.Names.{elem}
use zpq.Bench.Score.{
  rivals, Table, median_of, Bar, is_beaten, best_rival, one_if, bar_step, bar_loop, ship_bar,
  is_met, no_bar,
}
use Prim.Native.String.{String}
use mathlib.Core.List.{Memᴰ}
use mathlib.Core.List.Memᴰ as Memᴰ

-- How many of the cases pass a test.
unfoldable pub count : (String → Bool) → List String → ℕ
count test [] = 0
count test (c ∷ cases) = one_if (test c) + count test cases

module _ (table : Table) where
  -- Some rival's time passes a test.
  unfoldable pub any_time : (ℕ → Bool) → String → List String → Bool
  any_time test c [] = false
  any_time test c (r ∷ rs) =
      elim (median_of table c r) [ none ↦ false | some t ↦ test t ] || any_time test c rs

  -- A planned case on which zpq failed or a rival's time passes a test that depends on zpq's.
  unfoldable pub trails : (ℕ → ℕ → Bool) → String → Bool
  unfolding any_time
  trails test c = elim (median_of table c "zpq") [
    | none ↦ true
    | some z ↦ any_time (test z) c rivals
  ]

  abbrev pub wins : String → String → Bool
  wins r c = elim (median_of table c "zpq") [
    | none ↦ false
    | some z ↦ is_beaten z (median_of table c r)
  ]

  -- `behind` counts the cases on which a rival is faster, `over` those on which it is more than 1.5 times so.
  abbrev pub faster : ℕ → ℕ → Bool
  faster z t = ltb t z

  abbrev pub much_faster : ℕ → ℕ → Bool
  much_faster z t = ltb (3 * t) (2 * z)

  -- The fastest rival passes a test, if one of two does whenever the lesser does.
  best_rival-any :
      (test : ℕ → Bool) (c : String) (rs : List String)
      → ((t u : ℕ) → test (min t u) ≡ test t || test u)
      → elim (best_rival table c rs) [ none ↦ false | some t ↦ test t ] ≡ any_time test c rs
  unfolding best_rival any_time
  best_rival-any test c [] h = refl
  best_rival-any test c (r ∷ rs) h =
      go (median_of table c r) (best_rival table c rs) (best_rival-any test c rs h)
    where
      go :
          (m best : Option ℕ)
          → elim best [ none ↦ false | some t ↦ test t ] ≡ any_time test c rs
          → let joined : Option ℕ = elim m [
            | none ↦ best
            | some t ↦ some (elim best [ none ↦ t | some u ↦ min t u ])
          ] in
            elim joined [ none ↦ false | some t ↦ test t ]
            ≡ elim m [ none ↦ false | some t ↦ test t ] || any_time test c rs
      go none best ih = ih
      go (some t) none ih = rw (← ih) (ground arith)
      go (some t) (some u) ih = h t u ∙ ap (λ b. test t || b) ih

  trails-failed :
      (test : ℕ → ℕ → Bool) (c : String) → median_of table c "zpq" ≡ none → trails test c ≡ true
  unfolding trails
  trails-failed test c h = rw (trails, h) refl

  trails-some :
      (test : ℕ → ℕ → Bool) (c : String) {z : ℕ}
      → median_of table c "zpq" ≡ some z
      → trails test c ≡ any_time (test z) c rivals
  unfolding trails any_time
  trails-some test c h = rw (trails, h) refl

  true-ne-false : true ≡ false → ⊥
  true-ne-false h = cc

  -- Against the fastest rival.
  trails-best :
      (test : ℕ → ℕ → Bool) (c : String) {z : ℕ} (best : Option ℕ)
      → ((z t u : ℕ) → test z (min t u) ≡ test z t || test z u)
      → median_of table c "zpq" ≡ some z
      → best_rival table c rivals ≡ best
      → trails test c ≡ elim best [ none ↦ false | some t ↦ test z t ]
  unfolding trails
  trails-best test c {z} best least h is_best =
      rw (trails, h)
        (sym (best_rival-any (test z) c rivals (least z))
          ∙ ap (λ (o : Option ℕ). elim o [ none ↦ false | some t ↦ test z t ]) is_best)

  faster-min : (z t u : ℕ) → faster z (min t u) ≡ faster z t || faster z u
  faster-min z t u = ground arith

  much_faster-min : (z t u : ℕ) → much_faster z (min t u) ≡ much_faster z t || much_faster z u
  much_faster-min z t u = ground arith

  module _ (quarantined : List String) where
    abbrev pub counted : (String → Bool) → String → Bool
    counted test c = not (elem c quarantined) && test c

    -- What one case adds.
    record Adds (b b' : Bar) (c : String) : Type 0 where
      behind : b'.behind ≡ b.behind + one_if (counted (trails faster) c)
      over : b'.over ≡ b.over + one_if (counted (trails much_faster) c)

    bar_step-Adds : (b : Bar) (c : String) → Adds b (bar_step table quarantined b c) c
    unfolding bar_step
    bar_step-Adds b c = elim (Bool-cases (elem c quarantined)) [
      | inl e ↦ record { behind = rw e (omega arith); over = rw e (omega arith) }
      | inr e ↦ elim (Option-cases (median_of table c "zpq")) [
        | inl z ↦ record {
          behind = rw (e, z, trails-failed faster c z) (omega arith);
          over = rw (e, z, trails-failed much_faster c z) (omega arith);
        }
        | inr (z, is_z) ↦ elim (Option-cases (best_rival table c rivals)) [
          | inl m ↦ record {
            behind = rw (e, is_z, m, trails-best faster c none faster-min is_z m) (omega arith);
            over =
                rw (e, is_z, m, trails-best much_faster c none much_faster-min is_z m)
                  (omega arith);
          }
          | inr (t, is_t) ↦ record {
            behind = rw (e, is_z, is_t, trails-best faster c (some t) faster-min is_z is_t) refl;
            over =
                rw (e, is_z, is_t, trails-best much_faster c (some t) much_faster-min is_z is_t)
                  refl;
          }
        ]
      ]
    ]

    bar_loop-counts :
        (planned : List String) (b : Bar)
        → ((bar_loop table quarantined b planned).behind
            ≡ b.behind + count (counted (trails faster)) planned)
          × ((bar_loop table quarantined b planned).over
              ≡ b.over + count (counted (trails much_faster)) planned)
    unfolding bar_loop count
    bar_loop-counts [] b = (omega arith, omega arith)
    bar_loop-counts (c ∷ planned) b =
        let step = bar_step-Adds b c in
        let (behind, over) = bar_loop-counts planned (bar_step table quarantined b c) in
        (omega (arith, step.behind, behind), omega (arith, step.over, over))

    -- `behind` is the number of planned cases, out of quarantine, on which zpq has no median or some rival's
    -- is less; `over` the number of those on which zpq has none or some rival's is less than two thirds of it.
    pub ship_bar-counts :
        (planned : List String)
        → ((ship_bar table planned quarantined).behind ≡ count (counted (trails faster)) planned)
          × ((ship_bar table planned quarantined).over
              ≡ count (counted (trails much_faster)) planned)
    unfolding ship_bar
    ship_bar-counts planned =
        let (behind, over) = bar_loop-counts planned no_bar in
        (omega (arith, behind), omega (arith, over))

    or_false : (a b : Bool) → a || b ≡ false → (a ≡ false) × (b ≡ false)
    or_false true b h = cc
    or_false false b h = (refl, h)

    count-zero :
        (test : String → Bool) (cases : List String) {c : String}
        → count test cases ≡ 0
        → Memᴰ c cases
        → test c ≡ false
    unfolding count
    count-zero test [] h m = absurd (Memᴰ.not-nil m)
    count-zero test (d ∷ cases) h m = elim (Memᴰ.cases_cons m) [
      | inl same ↦ ap test same ∙ ground (arith, h)
      | inr later ↦ count-zero test cases (omega arith) later
    ]

    any_time-none :
        (test : ℕ → Bool) (c : String) (rs : List String) {r : String} {t : ℕ}
        → any_time test c rs ≡ false
        → Memᴰ r rs
        → median_of table c r ≡ some t
        → test t ≡ false
    unfolding any_time
    any_time-none test c [] h m e = absurd (Memᴰ.not-nil m)
    any_time-none test c (q ∷ rs) {r} {t} h m e =
        let (here, later) =
          or_false (elim (median_of table c q) [ none ↦ false | some t ↦ test t ])
            (any_time test c rs) h in
        elim (Memᴰ.cases_cons m) [
          | inl same ↦
              let is_t : median_of table c q ≡ some t = ap (median_of table c) (sym same) ∙ e in
              rw is_t at here
          | inr there ↦ any_time-none test c rs later there e
        ]

    -- A met bar promises that zpq has a median on every planned case out of quarantine, at most one and a
    -- half times that of any rival that has one, and that it is behind on a fifth of the cases at most.
    pub is_met-promises :
        (planned : List String)
        → is_met (length planned) (ship_bar table planned quarantined) ≡ true
        → (5 * count (counted (trails faster)) planned ≤ length planned)
          × ((c : String)
              → Memᴰ c planned
              → elem c quarantined ≡ false
              → (z : ℕ) × (median_of table c "zpq" ≡ some z)
                × ((r : String) (t : ℕ)
                    → Memᴰ r rivals
                    → median_of table c r ≡ some t
                    → 2 * z ≤ 3 * t))
    unfolding is_met
    is_met-promises planned h =
        let (behind, over) = ship_bar-counts planned in
        let few : 5 * (ship_bar table planned quarantined).behind ≤ length planned =
          ground (arith, h) in
        let none_over : (ship_bar table planned quarantined).over ≡ 0 = ground (arith, h) in
        (
          omega (arith, behind, few),
          λ c m out. keeps c (
              let quiet : counted (trails much_faster) c ≡ false =
                count-zero (counted (trails much_faster)) planned (omega (arith, over, none_over))
                  m in
              rw out at quiet),
        )
      where
        keeps :
            (c : String)
            → trails much_faster c ≡ false
            → (z : ℕ) × (median_of table c "zpq" ≡ some z)
              × ((r : String) (t : ℕ)
                  → Memᴰ r rivals
                  → median_of table c r ≡ some t
                  → 2 * z ≤ 3 * t)
        keeps c quiet = elim (Option-cases (median_of table c "zpq")) [
          | inl lost ↦ absurd (true-ne-false (sym (trails-failed much_faster c lost) ∙ quiet))
          | inr (z, is_z) ↦ (
            z,
            is_z,
            λ r t among is_t. ground (
              arith,
              any_time-none (much_faster z) c rivals (sym (trails-some much_faster c is_z) ∙ quiet)
                  among is_t,
            ),
          )
        ]
