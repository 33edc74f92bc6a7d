-- ===== src/Bench/Requests/Evidence.antt =====
-- What an accepted request without missing evidence proves.
use zpq.Common.{ℕ, ◌≡◌, refl, ap, ◌∙◌, Bool, true, false, not, List, [], ◌∷◌, ◌++◌}
use zpq.Common.Tests.{both, if◌then◌else◌}
use zpq.Common.Result.{ok, ok-injective, >>=-eq-ok, guard->>-eq-ok, value_error}
use zpq.Bench.Requests.{
  digest_missing, pin_missing, is_sha_of, is_true, candidate_of, check_receipt, receipt_missing,
  full_hash_of, hash_missing, validate,
}
use zpq.Bench.Requests.Values.{
  Json, null, bool, int, float, string, array, object, Members, get, truthy, is_text, is_hex,
}
use Prim.Native.String.{String}
use text.Mathlib.TextEquality.{eq_iff}
use zpq.Bench.Requests.Checked.{check_request-Checked, tested, validate-object}

both_empty : (xs ys : List String) → xs ++ ys ≡ [] → (xs ≡ []) × (ys ≡ [])
both_empty [] ys h = (refl, h)
both_empty (x ∷ xs) ys h = cc

-- A value that is a text of n hex digits.
abbrev pub FullHash : ℕ → Json → Type 0
FullHash n j = (s : String) × (j ≡ string s) × (is_hex n s ≡ true)

digest_missing-FullHash :
    (name : String) (n : ℕ) (j : Json) → digest_missing name n j ≡ ok [] → FullHash n j
unfolding digest_missing
digest_missing-FullHash name n (string s) h = (s, refl, (tested (is_hex n s) h).0)
digest_missing-FullHash name n null h = cc
digest_missing-FullHash name n (bool b) h = cc
digest_missing-FullHash name n (int z) h = cc
digest_missing-FullHash name n (float b) h = cc
digest_missing-FullHash name n (array js) h = cc
digest_missing-FullHash name n (object m) h = cc

pin_missing-FullHash :
    (sha binary : String) (j : Json)
    → pin_missing sha binary j ≡ ok []
    → FullHash 40 (get "sha" (candidate_of j)) × FullHash 64 (get "binary_sha256" (candidate_of j))
unfolding pin_missing
pin_missing-FullHash sha binary (object pin) h =
    let (a, is_a, h) = >>=-eq-ok (digest_missing sha 40 (get "sha" pin)) _ h in
    let (b, is_b, h) = >>=-eq-ok (digest_missing binary 64 (get "binary_sha256" pin)) _ h in
    let (a_empty, b_empty) = both_empty a b (ok-injective h) in
    (
      digest_missing-FullHash sha 40 (get "sha" pin) (is_a ∙ ap ok a_empty),
      digest_missing-FullHash binary 64 (get "binary_sha256" pin) (is_b ∙ ap ok b_empty),
    )
pin_missing-FullHash sha binary null h = cc
pin_missing-FullHash sha binary (bool b) h = cc
pin_missing-FullHash sha binary (int z) h = cc
pin_missing-FullHash sha binary (float b) h = cc
pin_missing-FullHash sha binary (string s) h = cc
pin_missing-FullHash sha binary (array js) h = cc

is_true-bool : (j : Json) → is_true j ≡ true → j ≡ bool true
is_true-bool (bool true) h = refl
is_true-bool (bool false) h = cc
is_true-bool null h = cc
is_true-bool (int z) h = cc
is_true-bool (float b) h = cc
is_true-bool (string s) h = cc
is_true-bool (array js) h = cc
is_true-bool (object m) h = cc

is_text-string : (j : Json) (s : String) → is_text j s ≡ true → j ≡ string s
is_text-string (string t) s h = ap string ((eq_iff t s).0 h)
is_text-string (bool b) s h = cc
is_text-string null s h = cc
is_text-string (int z) s h = cc
is_text-string (float b) s h = cc
is_text-string (array js) s h = cc
is_text-string (object m) s h = cc

is_sha_of-string :
    (j sha : Json) → is_sha_of j sha ≡ true → (s : String) × (j ≡ string s) × (sha ≡ string s)
unfolding is_sha_of
is_sha_of-string (string t) sha h = (t, refl, is_text-string sha t h)
is_sha_of-string (bool b) s h = cc
is_sha_of-string null s h = cc
is_sha_of-string (int z) s h = cc
is_sha_of-string (float b) s h = cc
is_sha_of-string (array js) s h = cc
is_sha_of-string (object m) s h = cc

-- A receipt names the sha of a candidate, from a clean tree.
abbrev pub Names : (candidate : Members) → Json → Type 0
Names candidate j =
    (receipt : Members) × (sha : String) × (j ≡ object receipt)
    × (get "source_sha" receipt ≡ string sha)
    × (get "sha" candidate ≡ string sha)
    × (get "tree_clean" receipt ≡ bool true)

receipt_missing-Names :
    (candidate : Members) (j : Json) → receipt_missing candidate j ≡ ok [] → Names candidate j
unfolding receipt_missing check_receipt
receipt_missing-Names candidate (object receipt) h =
    let (_, h) = guard->>-eq-ok _ value_error h in
    let (agreed, _) = guard->>-eq-ok _ value_error h in
    let (sha, clean) =
      both (is_sha_of (get "source_sha" receipt) (get "sha" candidate))
        (is_true (get "tree_clean" receipt)) agreed in
    let (s, of_receipt, of_candidate) =
      is_sha_of-string (get "source_sha" receipt) (get "sha" candidate) sha in
    (receipt, s, refl, of_receipt, of_candidate, is_true-bool (get "tree_clean" receipt) clean)
receipt_missing-Names candidate null h = cc
receipt_missing-Names candidate (bool b) h = cc
receipt_missing-Names candidate (int z) h = cc
receipt_missing-Names candidate (float b) h = cc
receipt_missing-Names candidate (string s) h = cc
receipt_missing-Names candidate (array js) h = cc

full_hash_of-FullHash : (j : Json) → full_hash_of j ≡ ok [] → FullHash 64 j
unfolding full_hash_of
full_hash_of-FullHash (string s) h = (s, refl, (tested (is_hex 64 s) h).0)
full_hash_of-FullHash (bool b) h = cc
full_hash_of-FullHash null h = cc
full_hash_of-FullHash (int z) h = cc
full_hash_of-FullHash (float b) h = cc
full_hash_of-FullHash (array js) h = cc
full_hash_of-FullHash (object m) h = cc

hash_missing-FullHash : (key : String) (j : Json) → hash_missing key j ≡ ok [] → FullHash 64 j
unfolding hash_missing
hash_missing-FullHash key j h = go (not (truthy j)) h
  where
    go : (b : Bool) → (if b then ok (key ∷ []) else full_hash_of j) ≡ ok [] → FullHash 64 j
    go true h = cc
    go false h = full_hash_of-FullHash j h

-- An accepted request that misses no evidence pins the source and the binary of both builds and the two input
-- sets by full hashes, and its receipt is of the candidate's source and of a clean tree.
pub validate-evidence :
    (request : Json)
    → validate request ≡ ok []
    → (m : Members) × (request ≡ object m)
      × (FullHash 40 (get "sha" (candidate_of (get "candidate" m)))
          × FullHash 64 (get "binary_sha256" (candidate_of (get "candidate" m))))
      × (FullHash 40 (get "sha" (candidate_of (get "baseline" m)))
          × FullHash 64 (get "binary_sha256" (candidate_of (get "baseline" m))))
      × Names (candidate_of (get "candidate" m)) (get "correctness_receipt" m)
      × FullHash 64 (get "corpus_manifest_sha256" m)
      × FullHash 64 (get "query_set_sha256" m)
validate-evidence request h =
    let (m, same, checked) = validate-object request h in
    let p = check_request-Checked m checked in
    let (h₁, e) = both_empty (p.a ++ p.b ++ p.c ++ p.d) p.e p.all_missing in
    let (h₂, d) = both_empty (p.a ++ p.b ++ p.c) p.d h₁ in
    let (h₃, c) = both_empty (p.a ++ p.b) p.c h₂ in
    let (a, b) = both_empty p.a p.b h₃ in
    (
      m,
      same,
      pin_missing-FullHash _ _ (get "candidate" m) (p.candidate_pin ∙ ap ok a),
      pin_missing-FullHash _ _ (get "baseline" m) (p.baseline_pin ∙ ap ok b),
      receipt_missing-Names _ (get "correctness_receipt" m) (p.receipt ∙ ap ok c),
      hash_missing-FullHash _ (get "corpus_manifest_sha256" m) (p.corpus ∙ ap ok d),
      hash_missing-FullHash _ (get "query_set_sha256" m) (p.queries ∙ ap ok e),
    )
