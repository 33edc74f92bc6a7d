-- ===== src/Fanout/Run/Laws.antt =====
-- What is sent to the workers, and when an answer is given.
use zpq.Common.{
  ℕ, ◌≡◌, ◌≢◌, refl, ap, ◌∙◌, Bool, false, not, ◌&&◌, ◌||◌, ◌⊎◌, inl, inr, Option, List, [], ◌∷◌,
  ◌++◌,
}
use zpq.Common.Tests.{if◌then◌else◌, Bool-cases}
use zpq.Common.Int.{ℤ}
use zpq.Common.Result.{Result, ok, raised, out_of_fuel, refused}
use zpq.Fanout.Merge.{Scalars}
use zpq.Fanout.Order.{Item}
use zpq.Fanout.Plan.{Reply, capabilities, Request, Process, Answer}
use zpq.Fanout.Run.{Outcome, with_value, Workers, invoke, acknowledges, negotiate, run}
use Prim.Native.String.{String}

with_value-stops :
    {P A B : Type 0} (o : Outcome P A) (next : Process P → A → Outcome P B)
    → ((a : A) → o.1 ≢ ok a)
    → ((with_value o next).0 ≡ o.0) × ((b : B) → (with_value o next).1 ≢ ok b)
with_value-stops (s, ok a) next h = absurd (h a refl)
with_value-stops (s, raised e) next h = (refl, λ b. cc)
with_value-stops (s, out_of_fuel) next h = (refl, λ b. cc)

module _ (scalars : Scalars) {P : Type 0} (workers : Workers P scalars.Scalar) where
  -- The capabilities are asked for, and no answer acknowledges them.
  negotiate-stops :
      (pinned : Bool) (s : Process P)
      → pinned && s.known ≡ false
      → ((r : Option (Reply P scalars.Scalar))
          → workers s.sent capabilities ≡ ok r
          → acknowledges scalars r ≡ false)
      → ((negotiate scalars workers pinned s).0.sent ≡ s.sent ++ capabilities ∷ [])
        × ((a : Unit {0}) → (negotiate scalars workers pinned s).1 ≢ ok a)
  unfolding negotiate invoke
  negotiate-stops pinned s fresh h = rw fresh (answered (workers s.sent capabilities) h)
    where
      answered :
          (r : Result (Option (Reply P scalars.Scalar)))
          → ((c : Option (Reply P scalars.Scalar)) → r ≡ ok c → acknowledges scalars c ≡ false)
          → let next : Outcome P (Unit {0}) =
              with_value
                (record s { sent = s.sent ++ capabilities ∷ [] }, r)
                λ s' cap.
                  if acknowledges scalars cap
                  then (record s' { known = s'.known || pinned }, ok tt)
                  else (s', raised refused) in
            (next.0.sent ≡ s.sent ++ capabilities ∷ []) × ((a : Unit {0}) → next.1 ≢ ok a)
      answered (ok c) h = rw (h c refl) (refl, λ a. cc)
      answered (raised e) h = (refl, λ a. cc)
      answered out_of_fuel h = (refl, λ a. cc)

  -- Where the workers' capabilities are not already known by a pinned key and no answer to the question
  -- for them acknowledges plan version 1, nothing but that question is sent to a worker, whatever the
  -- request, and the query is not answered.
  pub run-negotiates :
      (plan_eq : P → P → Bool) (pinned : Bool) (request : Request) (n : ℕ) (items : List Item)
      (limit : Option ℤ) (counts : Option (List ℕ)) (s : Process P)
      → pinned && s.known ≡ false
      → ((r : Option (Reply P scalars.Scalar))
          → workers s.sent capabilities ≡ ok r
          → acknowledges scalars r ≡ false)
      → let (s', r) = run scalars workers plan_eq pinned request n items limit counts s in
        ((s'.sent ≡ s.sent) ⊎ (s'.sent ≡ s.sent ++ capabilities ∷ []))
        × ((a : Answer scalars.Scalar) → r ≢ ok a)
  unfolding run
  run-negotiates plan_eq pinned request n items limit counts s fresh h =
      elim (Bool-cases (request.sql || request.row_groups || not request.has_aggregate)) [
        | inl e ↦ rw e (inl refl, λ a. cc)
        | inr e ↦
            let (asked, silent) = negotiate-stops pinned s fresh h in
            let (same, stuck) = with_value-stops (negotiate scalars workers pinned s) _ silent in
            rw e (inr (ap (λ (t : Process P). t.sent) same ∙ asked), stuck)
      ]
