-- ===== src/Bench/Lane.antt =====
-- bench/lane.py, class Lane: the journal, the judged answers and the rounds of a lane whose repetitions are
-- fresh processes. The host and the engines are a parameter: what they do may depend on all that was done.
pub mod Laws
pub mod Resumption
use zpq.Common.{
  ℕ, zero, suc, ◌+◌, ◌-◌, Bool, true, false, not, ◌&&◌, Option, none, some, List, [], ◌∷◌, ◌++◌,
  map,
}
use zpq.Common.Tests.{◌==◌, if◌then◌else◌}
use zpq.Bench.Names.{flat_map, is_nil}
use zpq.Bench.Stalls.{
  Record, Status, ok_status, failed, wrong, timeout, disturbed_status, Pressure, disturbed,
}
use zpq.Bench.Score.{sort_names}
use Prim.Native.String.{String}
use text.Mathlib.Text.{◌==◌ as str_eq}

-- (case, engine, rep, round)
pub record Key : Type 0 where
  pub case_id : String
  pub engine : String
  pub rep : ℕ
  pub round : ℕ

unfoldable pub same_key : Key → Key → Bool
same_key k l =
    str_eq k.case_id l.case_id
    && str_eq k.engine l.engine
    && (k.rep == l.rep)
    && (k.round == l.round)

-- A line of the journal. `validation` is none where the answer is unchecked; `full` where a comparison and
-- not an earlier answer's hash gave it.
pub record Line : Type 0 where
  pub key : Key
  pub status : Status
  pub validation : Option Bool
  pub full : Bool
  pub check : String
  pub answer_sha256 : Option String
  pub elapsed_ns : Option ℕ
  pub read_bytes : ℕ
  pub host : Option Pressure
  pub scope : Option Pressure

-- A verdict by case, engine and hash.
pub record Known : Type 0 where
  pub case_id : String
  pub engine : String
  pub digest : String
  pub validation : Bool
  pub check : String

-- `done` and `verdicts`; the verdict noted last comes first.
pub record Journal : Type 0 where
  pub done : List Line
  pub verdicts : List Known

-- What the spawner replies of a process, with the hash of its answer's rows (none where they are no rows).
pub record Reply : Type 0 where
  pub timed_out : Bool
  pub rc : ℕ
  pub written : Bool
  pub digest : Option String
  pub contended : Bool
  pub elapsed_ns : ℕ
  pub read_bytes : ℕ
  pub host : Option Pressure
  pub scope : Option Pressure

-- The host, the engines and the comparer; `is_disturbed` is `condition` with a reason.
pub record World : Type 0 where
  pub smoke : Bool
  pub is_disturbed : Journal → Key → Bool
  pub spawn : Journal → Key → Reply
  pub judge : Journal → Key → String → Bool × String

-- self.done[key] = r
unfoldable pub put_line : Line → List Line → List Line
unfolding same_key
put_line r [] = r ∷ []
put_line r (l ∷ done) =
    let rest = put_line r done in if same_key l.key r.key then r ∷ done else l ∷ rest

unfoldable pub is_done : Key → List Line → Bool
unfolding same_key
is_done k [] = false
is_done k (l ∷ done) = let rest = is_done k done in if same_key l.key k then true else rest

-- The verdict that a line adds: of a full comparison, under the answer's hash.
unfoldable pub learn : Line → List Known → List Known
learn r known = elim r.answer_sha256 [
  | none ↦ known
  | some d ↦ elim r.validation [
    | none ↦ known
    | some v ↦
        if r.full
        then record {
          case_id = r.key.case_id;
          engine = r.key.engine;
          digest = d;
          validation = v;
          check = r.check;
        }
          ∷ known
        else known
  ]
]

-- note, and write, which appends the line to the file first
unfoldable pub note : Line → Journal → Journal
unfolding put_line learn
note r j = record { done = put_line r j.done; verdicts = learn r j.verdicts }

unfoldable pub verdict_of : Key → String → List Known → Option Known
verdict_of k d [] = none
verdict_of k d (v ∷ known) =
    let rest = verdict_of k d known in
    if str_eq v.case_id k.case_id && str_eq v.engine k.engine && str_eq v.digest d
    then some v
    else rest

-- record: the base of a line
abbrev pub base : Key → Line
base k = record {
  key = k;
  status = failed;
  validation = none;
  full = false;
  check = "";
  answer_sha256 = none;
  elapsed_ns = none;
  read_bytes = 0;
  host = none;
  scope = none;
}

-- The fields of a process that ended.
abbrev pub measured : Key → Reply → Line
measured k reply = record (base k) {
  elapsed_ns = some reply.elapsed_ns;
  read_bytes = reply.read_bytes;
  host = reply.host;
  scope = reply.scope;
}

-- judge_answer: the validation, whether it is by a full comparison, the check and the hash.
unfoldable pub judge_answer :
    World → Journal → Key → Option String → Bool × Bool × String × Option String
unfolding verdict_of
judge_answer w j k none = (false, true, "answer is not JSON rows", none)
judge_answer w j k (some d) = elim (verdict_of k d j.verdicts) [
  | some known ↦ (known.validation, false, known.check, some d)
  | none ↦ let (is_ok, reason) = w.judge j k d in (is_ok, true, reason, some d)
]

unfoldable pub status_of : (smoke contended is_ok : Bool) → Status
status_of smoke contended is_ok =
    if not is_ok then wrong else if contended && not smoke then disturbed_status else ok_status

-- finish
unfoldable pub finish : World → Journal → Key → Reply → Line
unfolding judge_answer status_of
finish w j k reply =
    if reply.timed_out
    then record (measured k reply) { status = timeout }
    else if not (reply.rc == 0)
    then measured k reply
    else if not reply.written
    then measured k reply
    else let (is_ok, full, check, digest) = judge_answer w j k reply.digest in
      record (measured k reply) {
        status = status_of w.smoke reply.contended is_ok;
        validation = some is_ok;
        full = full;
        check = check;
        answer_sha256 = digest;
      }

-- fresh: the line of one repetition
unfoldable pub fresh_line : World → Journal → Key → Line
unfolding finish
fresh_line w j k =
    if w.is_disturbed j k
    then record (base k) { status = disturbed_status }
    else finish w j k (w.spawn j k)

unfoldable pub fresh : World → Journal → Key → Journal
unfolding fresh_line note
fresh w j k = note (fresh_line w j k) j

-- The keys of a round, repetition by repetition: range(first, reps + 1), the cases, the engines.
unfoldable pub range : ℕ → ℕ → List ℕ
range first zero = []
range first (suc n) = first ∷ range (suc first) n

unfoldable pub round_keys : (is_hot : Bool) → (reps : ℕ) → List String → List String → ℕ → List Key
unfolding range
round_keys is_hot reps ids engines rnd =
    let first = if is_hot then 0 else 1 in
    flat_map
      (λ rep.
        flat_map
          (λ c. map (λ e. record { case_id = c; engine = e; rep = rep; round = rnd }) engines) ids)
      (range first (reps + 1 - first))

unfoldable pub run_keys : World → Journal → List Key → Journal
unfolding fresh is_done
run_keys w j [] = j
run_keys w j (k ∷ ks) = run_keys w (if is_done k j.done then j else fresh w j k) ks

-- run_round, on a cold or a hot lane
unfoldable pub run_round : World → Bool → ℕ → List String → ℕ → List String → Journal → Journal
unfolding round_keys run_keys
run_round w is_hot reps ids rnd engines j = run_keys w j (round_keys is_hot reps ids engines rnd)

abbrev pub record_of : Line → Record
record_of l = record {
  case_id = l.key.case_id;
  engine = l.key.engine;
  rep = l.key.rep;
  round = l.key.round;
  status = l.status;
  elapsed_ns = l.elapsed_ns;
  read_bytes = l.read_bytes;
  host = l.host;
  scope = l.scope;
}

-- run: rounds from `rnd` on, `left` at most; a round without disturbed cases is the last.
unfoldable pub rounds_from :
    World → Bool → ℕ → List String → (left rnd : ℕ) → List String → Journal → Journal
unfolding run_round disturbed sort_names
rounds_from w is_hot reps ids zero rnd engines j = j
rounds_from w is_hot reps ids (suc left) rnd engines j =
    let j' = run_round w is_hot reps ids rnd engines j in
    let again = sort_names (disturbed (map record_of j'.done) rnd) in
    let rest = rounds_from w is_hot reps again left (suc rnd) engines j' in
    if is_nil again then j' else rest

unfoldable pub run :
    World → Bool → ℕ → List String → (max_rounds : ℕ) → List String → Journal → Journal
unfolding rounds_from
run w is_hot reps ids max_rounds engines j = rounds_from w is_hot reps ids max_rounds 0 engines j
