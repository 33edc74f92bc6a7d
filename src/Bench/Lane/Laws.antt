-- ===== src/Bench/Lane/Laws.antt =====
-- Every verdict of the journal is the comparer's, and a round that is over is not run again.
use zpq.Common.{
  ℕ, zero, suc, ◌≡◌, refl, sym, ap, ◌∙◌, Bool, true, false, ◌&&◌, Option, none, some, List, [], ◌∷◌,
  map, inl, inr,
}
use zpq.Common.Tests.{both, ◌==◌, if◌then◌else◌, Bool-cases, Option-cases}
use zpq.Common.Lists.{All}
use zpq.Bench.Names.{is_nil}
use zpq.Bench.Stalls.{disturbed}
use zpq.Bench.Score.{sort_names}
use zpq.Bench.Lane.{
  Key, same_key, Line, Known, Journal, Reply, World, put_line, is_done, learn, note, verdict_of,
  judge_answer, finish, fresh_line, fresh, round_keys, run_keys, run_round, record_of, rounds_from,
  run,
}
use Prim.Native.String.{String}
use text.Mathlib.Text.{◌==◌ as str_eq}
use text.Mathlib.TextEquality.{eq_iff}

All-put_line :
    (P : Line → Type 0) (r : Line) (done : List Line) → P r → All P done → All P (put_line r done)
unfolding put_line
All-put_line P r [] p ps = (p, tt)
All-put_line P r (l ∷ done) p (q, qs) = elim (Bool-cases (same_key l.key r.key)) [
  | inl same ↦ rw same (p, qs)
  | inr other ↦ rw other (q, All-put_line P r done p qs)
]

module _ (w : World) (truth : String → String → String → Bool) where
  -- The comparer's verdict depends on the case, the engine and the hash of the rows alone.
  abbrev pub Steady : Type 0
  Steady = (j : Journal) (k : Key) (d : String) → (w.judge j k d).0 ≡ truth k.case_id k.engine d

  abbrev pub TrueVerdict : Known → Type 0
  TrueVerdict v = v.validation ≡ truth v.case_id v.engine v.digest

  abbrev pub TrueLine : Line → Type 0
  TrueLine l =
      (d : String)
      → l.answer_sha256 ≡ some d
      → l.validation ≡ some (truth l.key.case_id l.key.engine d)

  verdict_of-true :
      (k : Key) (d : String) (known : List Known) {v : Known}
      → All TrueVerdict known
      → verdict_of k d known ≡ some v
      → v.validation ≡ truth k.case_id k.engine d
  unfolding verdict_of
  verdict_of-true k d [] ps h = cc
  verdict_of-true k d (u ∷ known) {v} (p, ps) h =
      elim (Bool-cases
        (str_eq u.case_id k.case_id && str_eq u.engine k.engine && str_eq u.digest d)) [
          | inl found ↦
              let (first, g) =
                both (str_eq u.case_id k.case_id && str_eq u.engine k.engine) (str_eq u.digest d)
                  found in
              let (c, e) = both (str_eq u.case_id k.case_id) (str_eq u.engine k.engine) first in
              let same : u ≡ v = some_injective (rw found at h) in
              ap Known.validation (sym same)
              ∙ p
              ∙ ap (λ x. truth x u.engine u.digest) ((eq_iff _ _).0 c)
              ∙ ap (λ x. truth k.case_id x u.digest) ((eq_iff _ _).0 e)
              ∙ ap (λ x. truth k.case_id k.engine x) ((eq_iff _ _).0 g)
          | inr other ↦ verdict_of-true k d known ps (rw other at h)
        ]
    where
      some_injective : {a b : Known} → some a ≡ some b → a ≡ b
      some_injective h = cc

  learn-true :
      (r : Line) (known : List Known)
      → TrueLine r
      → All TrueVerdict known
      → All TrueVerdict (learn r known)
  unfolding learn
  learn-true r known p ps = go r.answer_sha256 r.validation r.full p
    where
      go :
          (o : Option String) (m : Option Bool) (full : Bool)
          → ((d : String) → o ≡ some d → m ≡ some (truth r.key.case_id r.key.engine d))
          → All TrueVerdict (elim o [
            | none ↦ known
            | some d ↦ elim m [
              | none ↦ known
              | some v ↦
                  if full
                  then record {
                    case_id = r.key.case_id;
                    engine = r.key.engine;
                    digest = d;
                    validation = v;
                    check = r.check;
                  }
                    ∷ known
                  else known
            ]
          ])
      go none m full p = ps
      go (some d) none full p = ps
      go (some d) (some v) false p = ps
      go (some d) (some v) true p = (some_injective (p d refl), ps)
        where
          some_injective : {a b : Bool} → some a ≡ some b → a ≡ b
          some_injective h = cc

  -- Every noted verdict and every line with an answer's hash has the comparer's verdict on it.
  abbrev pub TrueJournal : Journal → Type 0
  TrueJournal j = All TrueVerdict j.verdicts × All TrueLine j.done

  module _ (steady : Steady) where
    judge_answer-true :
        (j : Journal) (k : Key) (o : Option String) (d : String)
        → TrueJournal j
        → o ≡ some d
        → (judge_answer w j k o).0 ≡ truth k.case_id k.engine d
    unfolding judge_answer
    judge_answer-true j k none d t h = cc
    judge_answer-true j k (some x) d t h = elim (Option-cases (verdict_of k x j.verdicts)) [
      | inl new ↦ rw (judge_answer, new) (steady j k x ∙ ap (truth k.case_id k.engine) (same h))
      | inr (v, old) ↦
          rw (judge_answer, old)
            (verdict_of-true k x j.verdicts t.0 old ∙ ap (truth k.case_id k.engine) (same h))
    ]
      where
        same : {a b : String} → some a ≡ some b → a ≡ b
        same h = cc

    judge_answer-digest : (j : Journal) (k : Key) (o : Option String) → (judge_answer w j k o).3 ≡ o
    unfolding judge_answer
    judge_answer-digest j k none = refl
    judge_answer-digest j k (some x) = elim (Option-cases (verdict_of k x j.verdicts)) [
      | inl new ↦ rw (judge_answer, new) refl
      | inr (v, old) ↦ rw (judge_answer, old) refl
    ]

    none_some : {A : Type 0} {d : String} → ◌≡◌ {A = Option String} none (some d) → A
    none_some h = cc

    finish-true :
        (j : Journal) (k : Key) (reply : Reply) → TrueJournal j → TrueLine (finish w j k reply)
    unfolding finish
    finish-true j k reply t d h = elim (Bool-cases reply.timed_out) [
      | inl e ↦ none_some (rw (finish, e) at h)
      | inr e ↦ elim (Bool-cases (reply.rc == 0)) [
        | inr f ↦ none_some (rw (finish, e, f) at h)
        | inl f ↦ elim (Bool-cases reply.written) [
          | inr g ↦ none_some (rw (finish, e, f, g) at h)
          | inl g ↦
              let hashed : (judge_answer w j k reply.digest).3 ≡ some d =
                rw (finish, e, f, g) at h in
              rw (finish, e, f, g)
                (ap some (
                  judge_answer-true j k reply.digest d t
                    (sym (judge_answer-digest j k reply.digest) ∙ hashed)))
        ]
      ]
    ]

    fresh_line-true : (j : Journal) (k : Key) → TrueJournal j → TrueLine (fresh_line w j k)
    unfolding fresh_line
    fresh_line-true j k t d h = elim (Bool-cases (w.is_disturbed j k)) [
      | inl e ↦ none_some (rw (fresh_line, e) at h)
      | inr e ↦
          let written : (finish w j k (w.spawn j k)).answer_sha256 ≡ some d =
            rw (fresh_line, e) at h in
          rw (fresh_line, e) (finish-true j k (w.spawn j k) t d written)
    ]

    run_keys-true : (ks : List Key) (j : Journal) → TrueJournal j → TrueJournal (run_keys w j ks)
    unfolding run_keys fresh note
    run_keys-true [] j t = t
    run_keys-true (k ∷ ks) j t = elim (Bool-cases (is_done k j.done)) [
      | inl e ↦ rw (run_keys, e) (run_keys-true ks j t)
      | inr e ↦
          rw (run_keys, e)
            (run_keys-true ks (fresh w j k) (learned (fresh_line w j k) (fresh_line-true j k t)))
    ]
      where
        learned : (r : Line) → TrueLine r → TrueJournal (note r j)
        learned r p = (learn-true r j.verdicts p t.0, All-put_line TrueLine r j.done p t.1)

    rounds_from-true :
        (is_hot : Bool) (reps : ℕ) (ids : List String) (left rnd : ℕ) (engines : List String)
        (j : Journal)
        → TrueJournal j
        → TrueJournal (rounds_from w is_hot reps ids left rnd engines j)
    unfolding rounds_from run_round
    rounds_from-true is_hot reps ids zero rnd engines j t = t
    rounds_from-true is_hot reps ids (suc left) rnd engines j t =
        let j' = run_round w is_hot reps ids rnd engines j in
        let t' : TrueJournal j' = run_keys-true (round_keys is_hot reps ids engines rnd) j t in
        let again = sort_names (disturbed (map record_of j'.done) rnd) in
        elim (Bool-cases (is_nil again)) [
          | inl e ↦ rw e t'
          | inr e ↦ rw e (rounds_from-true is_hot reps again left (suc rnd) engines j' t')
        ]

    -- Where the comparer's verdict depends on the case, the engine and the hash of the rows alone, a lane
    -- that starts without a journal ends with no line whose validation is another than the comparer's verdict
    -- on the answer of that hash.
    pub run-judges :
        (is_hot : Bool) (reps : ℕ) (ids : List String) (max_rounds : ℕ) (engines : List String)
        → All TrueLine
            (run w is_hot reps ids max_rounds engines (record { done = []; verdicts = [] })).done
    unfolding run
    run-judges is_hot reps ids max_rounds engines =
        (rounds_from-true is_hot reps ids max_rounds 0 engines (record { done = []; verdicts = [] })
          (tt, tt)).1
