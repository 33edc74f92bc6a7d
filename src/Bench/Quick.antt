-- ===== src/Bench/Quick.antt =====
-- bench/quick.py: one attempt of a paired check, and the comparison of a pair. What the host does in an
-- attempt is a parameter.
pub mod Worker
pub mod Report
pub mod Inputs
pub mod Manifest
pub mod Validators
pub mod Rivals
pub mod Recovery
use zpq.Common.{ℕ, Bool, true, false, not, ◌&&◌, ◌||◌, Option, none, some, List, [], ◌∷◌, map}
use zpq.Common.Tests.{if◌then◌else◌}
use zpq.Common.Int.{ℤ, pos, eqb_ℤ}
use zpq.Common.Result.{Result}
use Prim.Native.String.{String}
use text.Mathlib.Text.{◌==◌ as str_eq}

-- The exceptions by what the worker makes of them: BudgetExpired, Deferred, Mismatch, and ValueError, OSError,
-- KeyError or TypeError.
pub data Stop : Type 0 where
  expired deferred mismatch broken : Stop

pub data Engine : Type 0 where
  candidate base : Engine

pub data Phase : Type 0 where
  hash_first hot_fresh : Phase

pub data Status : Type 0 where
  observed passed timeout environment_rejected failed incorrect : Status

unfoldable pub same_engine : Engine → Engine → Bool
same_engine candidate candidate = true
same_engine base base = true
same_engine _ _ = false

unfoldable pub same_phase : Phase → Phase → Bool
same_phase hash_first hash_first = true
same_phase hot_fresh hot_fresh = true
same_phase _ _ = false

abbrev pub is_passed : Status → Bool
is_passed passed = true
is_passed _ = false

-- A declared outcome of an engine; a field that is not given differs from every value.
pub record Want : Type 0 where
  pub native_exit : Option ℤ
  pub stdout_sha256 : Option String
  pub stderr_sha256 : Option String
  pub outcome : Option String

-- A case of the manifest: `declared` is whether it names a reason for a difference in Parquet bytes, and
-- `want` is its declared outcome of an engine or of all.
pub record Case : Type 0 where
  pub id : String
  pub is_parquet : Bool
  pub declared : Bool
  pub engines : List Engine
  pub want : Engine → Option Want

pub record Row : Type 0 where
  pub case_id : String
  pub engine : Engine
  pub phase : Phase
  pub rep : ℕ
  pub status : Status
  pub native_exit : ℤ
  pub wall_ns : ℕ
  pub stdout_sha256 : String
  pub stderr_sha256 : String
  pub native_outcome : Option String
  pub artifact_sha256 : Option String
  pub validated : Bool

-- A process that ended: what was measured, whether the checksum of its output raises, whether a validation of its Parquet output raises, and whether the
-- look at the host behind it does.
pub record Native : Type 0 where
  pub native_exit : ℤ
  pub wall_ns : ℕ
  pub stdout_sha256 : String
  pub stderr_sha256 : String
  pub artifact_sha256 : Option String
  pub artifact_stop : Option Stop
  pub validation : Option Stop
  pub idle_after : Option Stop

-- What becomes of an attempt: an exception before there is a row, one before the process is over, or its end.
pub data Attempt : Type 0 where
  no_row : Stop → Attempt
  interrupted : Stop → Attempt
  ended : Native → Attempt

pub record Host : Type 0 where
  pub attempt : List Row → Case → Engine → Phase → ℕ → Attempt

-- want[field] == row[field]
abbrev pub text_is : Option String → String → Bool
text_is none t = false
text_is (some u) t = str_eq u t

abbrev pub exit_is : Option ℤ → ℤ → Bool
exit_is none z = false
exit_is (some w) z = eqb_ℤ w z

abbrev pub or_answer : Option String → String
or_answer none = "answer"
or_answer (some o) = o

abbrev pub exited_well : Native → Bool
exited_well n = eqb_ℤ n.native_exit (pos 0)

-- expected: the native outcome, or none where it raises Mismatch.
unfoldable pub expected : Option Want → Native → Option String
expected none n = if exited_well n then some "answer" else none
expected (some w) n =
    if not (
      exit_is w.native_exit n.native_exit
      && text_is w.stdout_sha256 n.stdout_sha256
      && text_is w.stderr_sha256 n.stderr_sha256)
    then none
    else if not (exited_well n) && not (text_is w.outcome "refusal")
    then none
    else some (or_answer w.outcome)

unfoldable pub status_of : Stop → Status
status_of expired = timeout
status_of deferred = environment_rejected
status_of mismatch = failed
status_of broken = failed

abbrev pub new_row : Case → Engine → Phase → ℕ → Row
new_row c e ph rep = record {
  case_id = c.id;
  engine = e;
  phase = ph;
  rep = rep;
  status = observed;
  native_exit = pos 0;
  wall_ns = 0;
  stdout_sha256 = "";
  stderr_sha256 = "";
  native_outcome = none;
  artifact_sha256 = none;
  validated = false;
}

abbrev pub measured : Row → Native → Row
measured r n = record r {
  native_exit = n.native_exit;
  wall_ns = n.wall_ns;
  stdout_sha256 = n.stdout_sha256;
  stderr_sha256 = n.stderr_sha256;
}

abbrev pub raises : Row → Stop → Option Row × Option Stop
raises r s = (some (record r { status = status_of s }), some s)

-- execute behind the expected outcome: the validation of a Parquet answer, and the host once more.
unfoldable pub validate : Case → Row → Native → Option Row × Option Stop
validate c r n =
    let answers = c.is_parquet && text_is r.native_outcome "answer" in
    let seen = record r { validated = answers } in
    elim (if answers then n.validation else none) [
      | some s ↦ raises r s
      | none ↦ elim n.idle_after [
        | some s ↦ raises seen s
        | none ↦ (some (record seen { status = passed }), none)
      ]
    ]

abbrev pub graded : Row → Native → String → Row
graded r n o = record (measured r n) {
  native_outcome = some o;
  artifact_sha256 = n.artifact_sha256;
}

-- execute behind the expected outcome: the checksum of the output, and what follows.
unfoldable pub answered : Case → Row → Native → String → Option Row × Option Stop
unfolding validate
answered c r n o = elim n.artifact_stop [
  | some s ↦ raises (record (measured r n) { native_outcome = some o }) s
  | none ↦ validate c (graded r n o) n
]

unfoldable pub finish : Case → Row → Native → Option Row × Option Stop
unfolding expected answered
finish c r n = elim (expected (c.want r.engine) n) [
  | none ↦ raises (measured r n) mismatch
  | some o ↦ answered c r n o
]

-- execute: the row that the journal is given, and the exception.
unfoldable pub execute : Host → List Row → Case → Engine → Phase → ℕ → Option Row × Option Stop
unfolding finish status_of
execute host attempts c e ph rep = elim (host.attempt attempts c e ph rep) [
  | no_row s ↦ (none, some s)
  | interrupted s ↦ raises (new_row c e ph rep) s
  | ended n ↦ finish c (new_row c e ph rep) n
]

-- Equality of two values that may be missing.
abbrev pub same_text : Option String → Option String → Bool
same_text none none = true
same_text (some a) (some b) = str_eq a b
same_text _ _ = false

unfoldable pub same_native : Row → Row → Bool
same_native r s =
    eqb_ℤ r.native_exit s.native_exit
    && str_eq r.stdout_sha256 s.stdout_sha256
    && str_eq r.stderr_sha256 s.stderr_sha256
    && same_text r.native_outcome s.native_outcome

-- identity(r) == identity(s)
unfoldable pub same_identity : Row → Row → Bool
unfolding same_native
same_identity r s = same_native r s && same_text r.artifact_sha256 s.artifact_sha256

-- A row of a Parquet answer that both validators passed.
abbrev pub is_valid_answer : Row → Bool
is_valid_answer r = text_is r.native_outcome "answer" && r.validated && eqb_ℤ r.native_exit (pos 0)

-- pair_check does not raise.
unfoldable pub pair_ok : Case → List Row → Bool
unfolding same_identity same_native
pair_ok c (r ∷ s ∷ []) =
    same_identity r s
    || (c.is_parquet && c.declared && is_valid_answer r && is_valid_answer s && same_native r s)
pair_ok c _ = true
