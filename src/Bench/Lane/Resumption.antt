-- ===== src/Bench/Lane/Resumption.antt =====
-- A round runs what is not done yet, and nothing twice.
use zpq.Common.{ℕ, ◌≡◌, refl, sym, subst, Bool, true, ◌&&◌, List, [], ◌∷◌, inl, inr, arith}
use zpq.Common.Tests.{both, ◌==◌, Bool-cases, ==_iff}
use zpq.Common.Lists.{All}
use zpq.Bench.Lane.{
  Key, same_key, Line, Journal, Reply, World, put_line, is_done, note, finish, fresh_line, fresh,
  round_keys, run_keys, run_round,
}
use Prim.Native.String.{String}
use text.Mathlib.Text.{◌==◌ as str_eq}
use text.Mathlib.TextEquality.{eq_iff}

same_key_refl : (k : Key) → same_key k k ≡ true
unfolding same_key
same_key_refl k =
    rw
      (
        (eq_iff k.case_id k.case_id).1 refl,
        (eq_iff k.engine k.engine).1 refl,
        (==_iff k.rep k.rep).1 refl,
        (==_iff k.round k.round).1 refl,
      )
      refl

same_key-eq : (a b : Key) → same_key a b ≡ true → a ≡ b
unfolding same_key
same_key-eq a b h =
    let (three, round) =
      both (str_eq a.case_id b.case_id && str_eq a.engine b.engine && (a.rep == b.rep))
        (a.round == b.round) h in
    let (two, rep) =
      both (str_eq a.case_id b.case_id && str_eq a.engine b.engine) (a.rep == b.rep) three in
    let (c, e) = both (str_eq a.case_id b.case_id) (str_eq a.engine b.engine) two in
    from_parts a b ((eq_iff _ _).0 c) ((eq_iff _ _).0 e) ((==_iff _ _).0 rep) ((==_iff _ _).0 round)
  where
    from_parts :
        (a b : Key)
        → a.case_id ≡ b.case_id
        → a.engine ≡ b.engine
        → a.rep ≡ b.rep
        → a.round ≡ b.round
        → a ≡ b
    from_parts a b p q r s = cc

put_line-here : (r : Line) (done : List Line) → is_done r.key (put_line r done) ≡ true
unfolding put_line is_done
put_line-here r [] = rw (same_key_refl r.key) refl
put_line-here r (l ∷ done) = elim (Bool-cases (same_key l.key r.key)) [
  | inl same ↦ rw (same, same_key_refl r.key) refl
  | inr other ↦ rw (other, other) (put_line-here r done)
]

put_line-keeps :
    (r : Line) (done : List Line) (k : Key)
    → is_done k done ≡ true
    → is_done k (put_line r done) ≡ true
unfolding put_line is_done
put_line-keeps r [] k h = cc
put_line-keeps r (l ∷ done) k h = elim (Bool-cases (same_key l.key r.key)) [
  | inl same ↦ rw (same, sym (same_key-eq l.key r.key same)) h
  | inr other ↦ elim (Bool-cases (same_key l.key k)) [
    | inl here ↦ rw (other, here) refl
    | inr later ↦ rw (other, later) (put_line-keeps r done k (rw later at h))
  ]
]

module _ (w : World) where
  finish-key : (j : Journal) (k : Key) (reply : Reply) → (finish w j k reply).key ≡ k
  unfolding finish
  finish-key j k reply = ground arith

  fresh_line-key : (j : Journal) (k : Key) → (fresh_line w j k).key ≡ k
  unfolding fresh_line
  fresh_line-key j k = elim (Bool-cases (w.is_disturbed j k)) [
    | inl e ↦ rw (fresh_line, e) refl
    | inr e ↦ rw (fresh_line, e) (finish-key j k (w.spawn j k))
  ]

  run_keys-keeps :
      (ks : List Key) (j : Journal) (k : Key)
      → is_done k j.done ≡ true
      → is_done k (run_keys w j ks).done ≡ true
  unfolding run_keys fresh note
  run_keys-keeps [] j k h = h
  run_keys-keeps (l ∷ ks) j k h = elim (Bool-cases (is_done l j.done)) [
    | inl e ↦ rw (run_keys, e) (run_keys-keeps ks j k h)
    | inr e ↦
        rw (run_keys, e)
          (run_keys-keeps ks (fresh w j l) k (put_line-keeps (fresh_line w j l) j.done k h))
  ]

  run_keys-does :
      (ks : List Key) (j : Journal) → All (λ k. is_done k (run_keys w j ks).done ≡ true) ks
  unfolding run_keys fresh note
  run_keys-does [] j = tt
  run_keys-does (k ∷ ks) j = elim (Bool-cases (is_done k j.done)) [
    | inl e ↦
        let step : run_keys w j (k ∷ ks) ≡ run_keys w j ks = rw (run_keys, e) refl in
        subst (λ (m : Journal). All (λ k. is_done k m.done ≡ true) (k ∷ ks)) (sym step)
          (run_keys-keeps ks j k e, run_keys-does ks j)
    | inr e ↦
        let here : is_done k (fresh w j k).done ≡ true =
          subst (λ l. is_done l (fresh w j k).done ≡ true) (fresh_line-key j k)
            (put_line-here (fresh_line w j k) j.done) in
        let step : run_keys w j (k ∷ ks) ≡ run_keys w (fresh w j k) ks = rw (run_keys, e) refl in
        subst (λ (m : Journal). All (λ k. is_done k m.done ≡ true) (k ∷ ks)) (sym step)
          (run_keys-keeps ks (fresh w j k) k here, run_keys-does ks (fresh w j k))
  ]

run_keys_same :
    (w : World) (ks : List Key) (j : Journal)
    → All (λ k. is_done k j.done ≡ true) ks
    → run_keys w j ks ≡ j
unfolding run_keys
run_keys_same w [] j h = refl
run_keys_same w (k ∷ ks) j (p, ps) = rw (run_keys, p) (run_keys_same w ks j ps)

-- After a round, each of its repetitions is in the journal, and the round taken up again, however the host
-- and the engines behave by then, runs nothing and leaves the journal as it is.
pub run_round-resumes :
    (w later : World) (is_hot : Bool) (reps : ℕ) (ids : List String) (rnd : ℕ)
    (engines : List String) (j : Journal)
    → All
        (λ k. is_done k (run_round w is_hot reps ids rnd engines j).done ≡ true)
        (round_keys is_hot reps ids engines rnd)
      × (run_round later is_hot reps ids rnd engines (run_round w is_hot reps ids rnd engines j)
          ≡ run_round w is_hot reps ids rnd engines j)
unfolding run_round
run_round-resumes w later is_hot reps ids rnd engines j =
    let ks = round_keys is_hot reps ids engines rnd in
    let does = run_keys-does w ks j in (does, run_keys_same later ks (run_keys w j ks) does)
