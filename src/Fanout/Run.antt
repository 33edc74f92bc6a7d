-- ===== src/Fanout/Run.antt =====
-- tools/serverless/fanout.py: negotiate, prepare, scatter and run. Every request to a worker is recorded,
-- in the order in which it is sent; of those sent concurrently the full preparation comes first.
pub mod Laws
pub mod Cover
use zpq.Common.{
  ℕ, zero, suc, ◌+◌, Bool, true, false, not, ◌&&◌, ◌||◌, Option, none, some, List, [], ◌∷◌, ◌++◌,
  map,
}
use zpq.Common.Tests.{◌==◌, if◌then◌else◌}
use zpq.Common.Lists.{length, get_elem?, take}
use zpq.Common.Int.{ℤ, pos, eqb_ℤ}
use zpq.Common.Result.{
  Result, ok, raised, out_of_fuel, Exn, refused, worker_failed, value_error, key_error, index_error,
  type_error, attribute_error, ◌>>=◌, ◌>>◌, guard,
}
use zpq.Fanout.Split.{Piece, split}
use zpq.Fanout.Merge.{
  Scalars, Function, count, sum, min_of, max_of, avg, Cell, Row, Aggregate, merge_total,
  merge_groups,
}
use zpq.Fanout.Order.{OutRow, Item, order}
use Prim.Native.String.{String}
use text.Mathlib.Text.{◌==◌ as str_eq}
use Prim.Native.Char.{code}
use zpq.Fanout.Plan.{
  Loose, is_version, equals_version, any_version, Agg, object, rows, Reply, Payload, capabilities,
  prepare_aggregate, partial, Request, Process, aggregates_of, member, payloads_of, or_base, Answer,
  one_row, group_rows, any_star, same_texts, same_aggregates, same_member, objects_of, arrays_of,
  is_early, Planned, mergeable, inputs_of, ranges_of, plan_version, has_star,
}

-- A step of the coordinator, and the next that needs its value.
abbrev pub Outcome : Type 0 → Type 0 → Type 0
Outcome P A = Process P × Result A

abbrev pub with_value : {P A B : Type 0} → Outcome P A → (Process P → A → Outcome P B) → Outcome P B
with_value (s, ok a) next = next s a
with_value (s, raised e) next = (s, raised e)
with_value (s, out_of_fuel) next = (s, out_of_fuel)

module _ (scalars : Scalars) where
  open scalars use {Scalar}

  -- merge and order
  unfoldable pub answer_of :
      List (Agg Scalar)
      → List Aggregate
      → List String
      → List Item
      → Option ℤ
      → Result (Answer Scalar)
  unfolding objects_of arrays_of merge_total merge_groups order
  answer_of answers aggs [] items limit = do
    objects ← objects_of answers
    row ← merge_total scalars objects aggs
    ok (one_row row)
  answer_of answers aggs (g ∷ group) items limit = do
    arrays ← arrays_of answers
    merged ← merge_groups scalars arrays aggs (g ∷ group)
    sorted ← order scalars items limit merged
    ok (group_rows sorted)

-- The workers: what a request is answered, after those sent before; `none` is a response that is no dict.
abbrev pub Workers : Type 0 → Type 0 → Type 0
Workers P S = List (Payload P) → Payload P → Result (Option (Reply P S))

module _ (scalars : Scalars) {P : Type 0} where
  open scalars use {Scalar}

  -- invoke
  unfoldable pub invoke :
      Workers P Scalar → Process P → Payload P → Outcome P (Option (Reply P Scalar))
  invoke workers s p = (record s { sent = s.sent ++ p ∷ [] }, workers s.sent p)

  -- negotiate: the test of the acknowledgement
  unfoldable pub acknowledges : Option (Reply P Scalar) → Bool
  unfolding is_version any_version
  acknowledges none = false
  acknowledges (some cap) = elim cap.prepare_aggregate_version [
    | none ↦ false
    | some v ↦
        is_version v
        && elim cap.structured_plan_versions [ none ↦ false | some vs ↦ any_version vs ]
  ]

  -- `pinned` says whether the invoker has a capability key.
  unfoldable pub negotiate : Workers P Scalar → (pinned : Bool) → Process P → Outcome P (Unit {0})
  unfolding invoke acknowledges
  negotiate workers pinned s =
      if pinned && s.known
      then (s, ok tt)
      else with_value (invoke workers s capabilities) λ s' cap.
        if acknowledges cap
        then (record s' { known = s'.known || pinned }, ok tt)
        else (s', raised refused)

  -- prepare: the test of the answer
  unfoldable pub is_prepared : Option (Reply P Scalar) → Result (P × Reply P Scalar)
  unfolding equals_version
  is_prepared none = raised refused
  is_prepared (some r) = elim r.version [
    | none ↦ raised refused
    | some v ↦
        if equals_version v
        then elim r.plan [ none ↦ raised refused | some plan ↦ ok (plan, r) ]
        else raised refused
  ]

  unfoldable pub prepare :
      Workers P Scalar → Option (List String) → Process P → Outcome P (P × Reply P Scalar)
  unfolding invoke is_prepared
  prepare workers inputs s =
      with_value (invoke workers s (prepare_aggregate inputs)) λ s' r. (s', is_prepared r)

  -- scatter: every request is sent, whatever becomes of the others.
  unfoldable pub send_all :
      Workers P Scalar
      → List (Payload P)
      → Process P
      → Process P × List (Result (Option (Reply P Scalar)))
  unfolding invoke
  send_all workers [] s = (s, [])
  send_all workers (p ∷ ps) s =
      let (s', r) = invoke workers s p in let (s'', rs) = send_all workers ps s' in (s'', r ∷ rs)

  -- list(ex.map(…)): the first exception in the order of the requests
  unfoldable pub gather :
      List (Result (Option (Reply P Scalar))) → Result (List (Option (Reply P Scalar)))
  gather [] = ok []
  gather (r ∷ rs) = do first ← r; rest ← gather rs; ok (first ∷ rest)

  -- The check of the responses, and their "agg" members.
  unfoldable pub agg_of : Option (Reply P Scalar) → Result (Agg Scalar)
  agg_of none = raised worker_failed
  agg_of (some r) = elim r.agg [ none ↦ raised worker_failed | some a ↦ ok a ]

  unfoldable pub answers_of : List (Option (Reply P Scalar)) → Result (List (Agg Scalar))
  unfolding agg_of
  answers_of [] = ok []
  answers_of (r ∷ out) = do a ← agg_of r; rest ← answers_of out; ok (a ∷ rest)

  unfoldable pub scatter :
      Workers P Scalar → List (Payload P) → Process P → Outcome P (List (Agg Scalar))
  unfolding send_all gather answers_of
  scatter workers payloads s =
      let (s', out) = send_all workers payloads s in (s', gather out >>= answers_of)

  unfoldable pub counted : Option (List ℕ) → List String → Reply P Scalar → Result (List ℕ)
  counted none inputs r = member r.row_group_counts
  counted (some counts) inputs r =
      if length counts == length inputs then ok counts else raised value_error

  unfoldable pub planned :
      (early : Bool) → List String → Option (List ℕ) → P × Reply P Scalar → Result (Planned P)
  unfolding aggregates_of counted
  planned early inputs counts (plan, r) = do
    members ← member r.aggregates
    aggs ← aggregates_of members
    group ← member r.groups
    used ← if early then ok inputs else member r.inputs
    cs ← counted counts used r
    ok (record { plan = plan; aggs = aggs; group = group; inputs = used; counts = cs })

  unfoldable pub payloads : Planned P → ℕ → Result (List (Payload P))
  unfolding payloads_of or_base split
  payloads pl workers = do
    ps ← payloads_of pl.plan pl.inputs (split pl.counts workers)
    ok (or_base pl.plan pl.inputs ps)

  -- whole.get(k) != prepared.get(k), for none of the three members
  unfoldable pub agrees : (P → P → Bool) → Reply P Scalar → Reply P Scalar → Bool
  unfolding same_aggregates same_texts
  agrees plan_eq whole prepared =
      same_member plan_eq whole.plan prepared.plan
      && same_member same_aggregates whole.aggregates prepared.aggregates
      && same_member same_texts whole.groups prepared.groups

  -- The scatter alone, and the scatter beside the full preparation, whose refusal wins.
  unfoldable pub scatter_checked :
      Workers P Scalar
      → (P → P → Bool)
      → (early : Bool) → Reply P Scalar
      → List (Payload P)
      → Process P
      → Outcome P (List (Agg Scalar))
  unfolding scatter prepare agrees
  scatter_checked workers plan_eq false prepared ps s = scatter workers ps s
  scatter_checked workers plan_eq true prepared ps s =
      let (s', full) = prepare workers none s in
      let (s'', partials) = scatter workers ps s' in
      (
        s'',
        do (_, whole) ← full; out ← partials; guard (agrees plan_eq whole prepared) refused; ok out,
      )

  unfoldable pub run :
      Workers P Scalar
      → (P → P → Bool)
      → (pinned : Bool) → Request
      → (workers : ℕ) → List Item
      → Option ℤ
      → Option (List ℕ)
      → Process P
      → Outcome P (Answer Scalar)
  unfolding negotiate prepare planned payloads scatter_checked answer_of is_early
  run workers plan_eq pinned request n items limit counts s =
      if request.sql || request.row_groups || not request.has_aggregate
      then (s, raised refused)
      else with_value (negotiate workers pinned s) λ s _.
        let early = is_early counts request.inputs in
        with_value (prepare workers (if early then some (take 1 request.inputs) else none) s) λ s p.
          with_value (s, planned early request.inputs counts p)
            λ s pl.
              with_value (s, payloads pl n)
                λ s ps.
                  with_value (scatter_checked workers plan_eq early p.1 ps s)
                    λ s out. (s, answer_of scalars out pl.aggs pl.group items limit)
