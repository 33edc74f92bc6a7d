-- ===== src/Service.antt =====
-- python/zpq_service.py: how a request to the service is answered.
pub mod Laws
use zpq.Common.{ℕ, Bool, true, false, not, ◌||◌, Option, none, some}
use zpq.Common.Tests.{ltb, if◌then◌else◌}
use zpq.Common.Int.{ℤ, pos, negsuc}
use Prim.Native.String.{String}
use text.Mathlib.Text.{◌==◌ as str_eq, starts_with}

-- MAX_BODY
abbrev pub max_body : ℕ
max_body = 16777216

-- A Content-Length header: what int() makes of its text (none where it raises ValueError), and whether the
-- stripped text is digits alone.
pub record Header : Type 0 where
  pub as_int : Option ℤ
  pub is_digits : Bool

-- What z.run_raw does: it returns a text, or raises ZpqClosed or another of the exceptions caught.
pub data Ran : Type 0 where
  answered : String → Ran
  closed_context broke : Ran

-- An answer: its status, whether the connection then closes, how many bytes of the body were read (none
-- where the body was not touched), and whether the library was called.
pub record Response : Type 0 where
  pub status : ℕ
  pub closes : Bool
  pub read : Option ℕ
  pub ran : Bool

-- _refuse, before the body is read
abbrev pub refuse : ℕ → Response
refuse status = record { status = status; closes = true; read = none; ran = false }

-- The length by the header: none where it is no plain number.
unfoldable pub length_of : Header → Option ℕ
length_of h = elim h.as_int [
  | none ↦ none
  | some z ↦ elim z [ pos n ↦ if h.is_digits then some n else none | negsuc n ↦ none ]
]

-- An error document's text begins so.
unfoldable pub status_of : String → ℕ
status_of text = if starts_with text "{\"error\"" then 400 else 200

-- The end of do_POST, behind the read of `length` bytes.
unfoldable pub answer : ℕ → Ran → Response
unfolding status_of
answer length (answered text) = record {
  status = status_of text;
  closes = false;
  read = some length;
  ran = true;
}
answer length closed_context = record {
  status = 503;
  closes = true;
  read = some length;
  ran = true;
}
answer length broke = record { status = 500; closes = false; read = some length; ran = true }

-- do_POST; `run` is the library's answer to a body of that length.
unfoldable pub do_post : String → Option Header → (ℕ → Ran) → Response
unfolding length_of answer
do_post path header run = if not (str_eq path "/query") then refuse 404 else elim header [
  | none ↦ refuse 411
  | some h ↦ elim (length_of h) [
    | none ↦ refuse 400
    | some n ↦ if ltb max_body n then refuse 413 else answer n (run n)
  ]
]

-- do_GET
unfoldable pub do_get : String → ℕ
do_get path = if str_eq path "/health" then 200 else 404
