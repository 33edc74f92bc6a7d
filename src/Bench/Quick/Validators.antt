-- ===== src/Bench/Quick/Validators.antt =====
-- bench/quick.py: parquet_validation, the two validators of a Parquet answer. What the processes and the checksum
-- give is a parameter; the texts of the commands are left aside.
use zpq.Common.{
  ◌≡◌, refl, sym, ap, ap₂, ◌∙◌, Bool, true, false, ◌&&◌, ◌⊎◌, Option, none, some, inl, inr,
}
use zpq.Common.Tests.{if◌then◌else◌, Bool-cases, both}
use zpq.Common.Int.{ℤ, pos, eqb_ℤ}
use zpq.Bench.Quick.{Stop, mismatch, broken, same_text}
use Prim.Native.String.{String}
use text.Mathlib.Text.{◌==◌ as str_eq}
use text.Mathlib.TextEquality.{eq_iff}

-- A value, or the exception in its place.
pub data Tried {ℓ} (A : Type ℓ) : Type ℓ where
  stopped : Stop → Tried A
  done : A → Tried A

infixl 5 ◌>>=◌ ◌>>◌
abbrev pub ◌>>=◌ {ℓ κ} : {A : Type ℓ} {B : Type κ} → Tried A → (A → Tried B) → Tried B
stopped s >>= next = stopped s
done a >>= next = next a

abbrev pub ◌>>◌ {ℓ} : {B : Type ℓ} → Tried (Unit {0}) → Tried B → Tried B
first >> second = first >>= λ u. second

-- if not test: raise
abbrev pub insist : Bool → Stop → Tried (Unit {0})
insist true s = done tt
insist false s = stopped s

-- parquet_validators: not given, or the two keys as tests.
pub data Validators : Type 0 where
  unset : Validators
  given : (duckdb pyarrow : Bool) → Validators

-- The pinned DuckDB; its checksum is taken once, `checked` is the one that was found right.
pub record Duckdb : Type 0 where
  pub has_path : Bool
  pub has_hash : Bool
  pub sha256 : String

-- What the processes give: exit codes, and for DuckDB whether it answered that no row is bad.
pub record Tools : Type 0 where
  pub digest : Tried String
  pub compare : Tried (ℤ × Bool)
  pub read_table : Tried ℤ
  pub first_command : Tried ℤ
  pub second_command : Tried ℤ

pub data Verdict : Type 0 where
  pass rejected : Verdict

abbrev pub is_zero : ℤ → Bool
is_zero z = eqb_ℤ z (pos 0)

-- "pass" if rc == 0 else "failed", where a failure raises besides
abbrev pub verdict_of : ℤ → Tried Verdict
verdict_of rc = if is_zero rc then done pass else stopped mismatch

-- config["_checked_duckdb"], as the checksum leaves it.
unfoldable pub check_duckdb : Tools → Duckdb → (checked : Option String) → Tried (Option String)
check_duckdb tools duck checked =
    if same_text checked (some duck.sha256)
    then done checked
    else (tools.digest >>= λ found.
        if str_eq found duck.sha256 then done (some found) else stopped mismatch)

-- The pair of verdicts, of DuckDB and of PyArrow, and the checksum that is kept.
unfoldable pub parquet_validation :
    Tools
    → Validators
    → Duckdb
    → (checked : Option String) → Tried ((Verdict × Verdict) × Option String)
unfolding check_duckdb
parquet_validation tools unset duck checked = do
  insist (duck.has_path && duck.has_hash) broken
  now ← check_duckdb tools duck checked
  (rc, no_bad) ← tools.compare
  insist (is_zero rc && no_bad) mismatch
  code ← tools.read_table
  v ← verdict_of code
  done ((pass, v), now)
parquet_validation tools (given duckdb pyarrow) duck checked = do
  insist (duckdb && pyarrow) broken
  a ← tools.first_command
  v ← verdict_of a
  b ← tools.second_command
  w ← verdict_of b
  done ((v, w), checked)

-- What stands behind two verdicts.
abbrev pub Validated : Tools → Validators → Duckdb → Option String → Option String → Type 0
Validated tools unset duck checked now =
    ((rc : ℤ) × (tools.compare ≡ done (rc, true)) × (is_zero rc ≡ true))
    × ((rc : ℤ) × (tools.read_table ≡ done rc) × (is_zero rc ≡ true))
    × (now ≡ some duck.sha256)
    × ((checked ≡ some duck.sha256) ⊎ (tools.digest ≡ done duck.sha256))
Validated tools (given duckdb pyarrow) duck checked now =
    ((rc : ℤ) × (tools.first_command ≡ done rc) × (is_zero rc ≡ true))
    × ((rc : ℤ) × (tools.second_command ≡ done rc) × (is_zero rc ≡ true))
    × (now ≡ checked)

done-injective {ℓ} : {A : Type ℓ} {a b : A} → done a ≡ done b → a ≡ b
done-injective h = cc

pub >>=-eq-done {ℓ κ} :
    {A : Type ℓ} {B : Type κ} (first : Tried A) (next : A → Tried B) {last : B}
    → (first >>= next) ≡ done last
    → (value : A) × (first ≡ done value) × (next value ≡ done last)
>>=-eq-done (stopped s) next h = cc
>>=-eq-done (done a) next h = (a, refl, h)

pub insist-eq-done : (test : Bool) (s : Stop) {u : Unit {0}} → insist test s ≡ done u → test ≡ true
insist-eq-done true s h = refl
insist-eq-done false s h = cc

verdict_of-pass : (rc : ℤ) {v : Verdict} → verdict_of rc ≡ done v → (is_zero rc ≡ true) × (v ≡ pass)
verdict_of-pass rc h = go (is_zero rc) h
  where
    go :
        (b : Bool) {v : Verdict}
        → (if b then done pass else stopped mismatch) ≡ done v
        → (b ≡ true) × (v ≡ pass)
    go true h = (refl, sym (done-injective h))
    go false h = cc

check_duckdb-sha :
    (tools : Tools) (duck : Duckdb) (checked : Option String) {now : Option String}
    → check_duckdb tools duck checked ≡ done now
    → (now ≡ some duck.sha256) × ((checked ≡ some duck.sha256) ⊎ (tools.digest ≡ done duck.sha256))
unfolding check_duckdb
check_duckdb-sha tools duck checked {now} h =
    elim (Bool-cases (same_text checked (some duck.sha256))) [
      | inl kept ↦
          let same = known checked kept in
          (sym (done-injective (rw (check_duckdb, kept) at h)) ∙ same, inl same)
      | inr stale ↦
          let (found, digested, h) = >>=-eq-done tools.digest _ (rw (check_duckdb, stale) at h) in
          let (right, is_now) = compared found h in
          (sym is_now ∙ ap some right, inr (digested ∙ ap done right))
    ]
  where
    known : (o : Option String) → same_text o (some duck.sha256) ≡ true → o ≡ some duck.sha256
    known none h = cc
    known (some t) h = ap some ((eq_iff t duck.sha256).0 h)

    compared :
        (found : String)
        → (if str_eq found duck.sha256 then done (some found) else stopped mismatch) ≡ done now
        → (found ≡ duck.sha256) × (some found ≡ now)
    compared found h = elim (Bool-cases (str_eq found duck.sha256)) [
      | inl same ↦ ((eq_iff found duck.sha256).0 same, done-injective (rw same at h))
      | inr other ↦ absurd (stopped_done (rw other at h))
    ]
      where
        stopped_done : ◌≡◌ {A = Tried (Option String)} (stopped mismatch) (done now) → ⊥
        stopped_done e = cc

-- Verdicts are given only if both are passes; then both commands ended with 0, and where no commands are
-- configured DuckDB found no bad row and is the pinned binary, by this checksum or an earlier one.
pub parquet_validation-passes :
    (tools : Tools) (validators : Validators) (duck : Duckdb) (checked : Option String)
    (verdicts : Verdict × Verdict) (now : Option String)
    → parquet_validation tools validators duck checked ≡ done (verdicts, now)
    → (verdicts ≡ (pass, pass)) × Validated tools validators duck checked now
unfolding parquet_validation
parquet_validation-passes tools unset duck checked verdicts now h =
    let (_, _, h) = >>=-eq-done (insist (duck.has_path && duck.has_hash) broken) _ h in
    let (kept, is_kept, h) = >>=-eq-done (check_duckdb tools duck checked) _ h in
    let ((rc, no_bad), compared, h) = >>=-eq-done tools.compare _ h in
    let (_, tested, h) = >>=-eq-done (insist (is_zero rc && no_bad) mismatch) _ h in
    let (code, read_, h) = >>=-eq-done tools.read_table _ h in
    let (v, passed, h) = >>=-eq-done (verdict_of code) _ h in
    let (zero_, clean) =
      both (is_zero rc) no_bad (insist-eq-done (is_zero rc && no_bad) mismatch tested) in
    let (arrow, is_pass) = verdict_of-pass code passed in
    let same = done-injective h in
    let (of_duck, source) = check_duckdb-sha tools duck checked is_kept in
    (
      sym (ap (λ (r : (Verdict × Verdict) × Option String). r.0) same)
          ∙ ap (λ v. (pass, v)) is_pass,
      (
        (rc, compared ∙ ap (λ b. done (rc, b)) clean, zero_),
        (code, read_, arrow),
        sym (ap (λ (r : (Verdict × Verdict) × Option String). r.1) same) ∙ of_duck,
        source,
      ),
    )
parquet_validation-passes tools (given duckdb pyarrow) duck checked verdicts now h =
    let (_, _, h) = >>=-eq-done (insist (duckdb && pyarrow) broken) _ h in
    let (a, first, h) = >>=-eq-done tools.first_command _ h in
    let (v, of_a, h) = >>=-eq-done (verdict_of a) _ h in
    let (b, second, h) = >>=-eq-done tools.second_command _ h in
    let (w, of_b, h) = >>=-eq-done (verdict_of b) _ h in
    let (a_zero, v_pass) = verdict_of-pass a of_a in
    let (b_zero, w_pass) = verdict_of-pass b of_b in
    let same = done-injective h in
    (
      sym (ap (λ (r : (Verdict × Verdict) × Option String). r.0) same)
          ∙ ap₂ (λ v w. (v, w)) v_pass w_pass,
      (
        (a, first, a_zero),
        (b, second, b_zero),
        sym (ap (λ (r : (Verdict × Verdict) × Option String). r.1) same),
      ),
    )
