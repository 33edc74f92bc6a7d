-- ===== src/Bench/Quick/Inputs/Content.antt =====
-- A verified input has the content that the manifest pins.
use zpq.Common.{
  ◌≡◌, refl, sym, ap, subst, ◌∙◌, true, ◌&&◌, Option, none, some, List, [], ◌∷◌, inl, inr,
}
use zpq.Common.Tests.{◌==◌, if◌then◌else◌, Bool-cases, both, ==_iff}
use zpq.Common.Lists.{All}
use zpq.Bench.Quick.Inputs.{
  Identity, same_file, Entry, Cache, kept, Seen, Verified, is_hit, compare_with, measure, use_entry,
  verify, Input, verify_input, verify_inputs, TrueCache, Honest,
}
use Prim.Native.String.{String}
use text.Mathlib.Text.{◌==◌ as str_eq}
use text.Mathlib.TextEquality.{eq_iff}

same_file-eq : (a b : Identity) → same_file a b ≡ true → a ≡ b
unfolding same_file
same_file-eq a b h =
    let (three, inode) =
      both (str_eq a.path b.path && (a.size == b.size) && (a.mtime_ns == b.mtime_ns))
        (a.inode == b.inode) h in
    let (two, mtime) =
      both (str_eq a.path b.path && (a.size == b.size)) (a.mtime_ns == b.mtime_ns) three in
    let (path, size) = both (str_eq a.path b.path) (a.size == b.size) two in
    from_parts a b ((eq_iff _ _).0 path) ((==_iff _ _).0 size) ((==_iff _ _).0 mtime)
      ((==_iff _ _).0 inode)
  where
    from_parts :
        (a b : Identity)
        → a.path ≡ b.path
        → a.size ≡ b.size
        → a.mtime_ns ≡ b.mtime_ns
        → a.inode ≡ b.inode
        → a ≡ b
    from_parts a b p q r s = cc

module _ (host : String) (content : Identity → String) where
  -- The cache stays true, and an input that passes has the expected content.
  abbrev Sound : Seen → String → Verified → Type 0
  Sound seen wanted (cache, none) = TrueCache host content cache × (content seen.before ≡ wanted)
  Sound seen wanted (cache, some s) = TrueCache host content cache

  kept-true :
      (h path : String) (cache : Cache) {entry : Entry}
      → TrueCache host content cache
      → kept h path cache ≡ some entry
      → entry.host ≡ host
      → entry.sha256 ≡ content entry.identity
  unfolding kept
  kept-true h path [] t e = cc
  kept-true h path ((g, p, x) ∷ cache) {entry} (q, qs) e =
      elim (Bool-cases (str_eq g h && str_eq p path)) [
        | inl here ↦
            let same : x ≡ entry = some_injective (rw here at e) in
            subst (λ (y : Entry). y.host ≡ host → y.sha256 ≡ content y.identity) same q
        | inr later ↦ kept-true h path cache qs (rw later at e)
      ]
    where
      some_injective : {a b : Entry} → some a ≡ some b → a ≡ b
      some_injective h = cc

  compare_with-Sound :
      (seen : Seen) (wanted : String) (cache : Cache) (sha256 : String)
      → TrueCache host content cache
      → sha256 ≡ content seen.before
      → Sound seen wanted (compare_with seen wanted cache sha256)
  unfolding compare_with
  compare_with-Sound seen wanted cache sha256 t e = elim (Bool-cases seen.late_last) [
    | inl late ↦ rw late t
    | inr early ↦ elim (Bool-cases (same_file seen.last seen.before)) [
      | inr moved ↦ rw (early, moved) t
      | inl still ↦ elim (Bool-cases (str_eq sha256 wanted)) [
        | inr other ↦ rw (early, still, other) t
        | inl same ↦ rw (early, still, same) (t, sym e ∙ (eq_iff sha256 wanted).0 same)
      ]
    ]
  ]

  measure-Sound :
      (seen : Seen) (wanted : String) (cache : Cache)
      → TrueCache host content cache
      → Honest host content seen
      → Sound seen wanted (measure host seen wanted cache)
  unfolding measure
  measure-Sound seen wanted cache t honest = elim (Bool-cases seen.late_behind) [
    | inl late ↦ rw late t
    | inr early ↦ elim (Bool-cases (same_file seen.behind seen.before)) [
      | inr moved ↦ rw (early, moved) t
      | inl still ↦
          let hashed = honest (same_file-eq seen.behind seen.before still) in
          rw (early, still) (compare_with-Sound seen wanted _ seen.digest ((λ h. hashed), t) hashed)
    ]
  ]

  use_entry-Sound :
      (seen : Seen) (wanted : String) (cache : Cache) (entry : Option Entry)
      → TrueCache host content cache
      → Honest host content seen
      → ((x : Entry) → entry ≡ some x → x.sha256 ≡ content seen.before)
      → Sound seen wanted (use_entry host seen wanted cache entry)
  unfolding use_entry
  use_entry-Sound seen wanted cache none t honest h = measure-Sound seen wanted cache t honest
  use_entry-Sound seen wanted cache (some x) t honest h =
      compare_with-Sound seen wanted cache x.sha256 t (h x refl)

  hit-true :
      (seen : Seen) (cache : Cache) (entry : Option Entry)
      → TrueCache host content cache
      → kept host seen.before.path cache ≡ entry
      → (x : Entry) → (if is_hit host seen.before entry then entry else none) ≡ some x
      → x.sha256 ≡ content seen.before
  unfolding is_hit
  hit-true seen cache none t e x h = cc
  hit-true seen cache (some y) t e x h =
      elim (Bool-cases (y.well_formed && str_eq y.host host && same_file y.identity seen.before)) [
        | inr miss ↦ absurd (none_some (rw miss at h))
        | inl hit ↦
            let (two, file) =
              both (y.well_formed && str_eq y.host host) (same_file y.identity seen.before) hit in
            let (_, here) = both y.well_formed (str_eq y.host host) two in
            let same : y ≡ x = some_injective (rw hit at h) in
            subst (λ (z : Entry). z.sha256 ≡ content seen.before) same
              (kept-true host seen.before.path cache t e ((eq_iff y.host host).0 here)
                ∙ ap content (same_file-eq y.identity seen.before file))
      ]
    where
      none_some : ◌≡◌ {A = Option Entry} none (some x) → ⊥
      none_some h = cc

      some_injective : {a b : Entry} → some a ≡ some b → a ≡ b
      some_injective h = cc

  verify-Sound :
      (seen : Seen) (wanted : String) (cache : Cache)
      → TrueCache host content cache
      → Honest host content seen
      → Sound seen wanted (verify host seen wanted cache)
  unfolding verify
  verify-Sound seen wanted cache t honest = elim (Bool-cases seen.late_before) [
    | inl late ↦ rw late t
    | inr early ↦ rw early (
        use_entry-Sound seen wanted cache _ t honest
          (hit-true seen cache (kept host seen.before.path cache) t refl))
  ]

  -- What is promised of an accepted input.
  abbrev pub Pinned : Input → Type 0
  Pinned input = (content input.seen.before ≡ input.sha256) × (input.size ≡ input.bytes)

  abbrev InputSound : Input → Verified → Type 0
  InputSound input (cache, none) = TrueCache host content cache × Pinned input
  InputSound input (cache, some s) = TrueCache host content cache

  verify_input-Sound :
      (cache : Cache) (input : Input)
      → TrueCache host content cache
      → Honest host content input.seen
      → InputSound input (verify_input host cache input)
  unfolding verify_input
  verify_input-Sound cache input t honest =
      elim (Bool-cases (input.is_full_hash && (input.size == input.bytes))) [
        | inr bad ↦ rw bad t
        | inl good ↦ elim (Bool-cases input.same_object) [
          | inr other ↦ rw (good, other) t
          | inl object ↦
              let size =
                (==_iff input.size input.bytes).0
                  (both input.is_full_hash (input.size == input.bytes) good).1 in
              rw (good, object)
                (with_size size (verify host input.seen input.sha256 cache)
                  (verify-Sound input.seen input.sha256 cache t honest))
        ]
      ]
    where
      with_size :
          input.size ≡ input.bytes
          → (v : Verified) → Sound input.seen input.sha256 v
          → InputSound input v
      with_size e (cache, none) (t, same) = (t, (same, e))
      with_size e (cache, some s) t = t

  abbrev AllSound : List Input → Verified → Type 0
  AllSound inputs (cache, none) = TrueCache host content cache × All Pinned inputs
  AllSound inputs (cache, some s) = TrueCache host content cache

  verify_inputs-Sound :
      (cache : Cache) (inputs : List Input)
      → TrueCache host content cache
      → All (λ (i : Input). Honest host content i.seen) inputs
      → AllSound inputs (verify_inputs host cache inputs)
  unfolding verify_inputs
  verify_inputs-Sound cache [] t honest = (t, tt)
  verify_inputs-Sound cache (input ∷ inputs) t (h, hs) =
      go (verify_input host cache input) (verify_input-Sound cache input t h)
        (λ cache' t'. verify_inputs-Sound cache' inputs t' hs)
    where
      go :
          (v : Verified)
          → InputSound input v
          → ((cache' : Cache)
              → TrueCache host content cache'
              → AllSound inputs (verify_inputs host cache' inputs))
          → AllSound
              (input ∷ inputs)
              (elim v.1 [ some s ↦ (v.0, some s) | none ↦ verify_inputs host v.0 inputs ])
      go (cache, some s) t rest = t
      go (cache, none) (t, pinned) rest =
          add pinned (verify_inputs host cache inputs) (rest cache t)
        where
          add : Pinned input → (v : Verified) → AllSound inputs v → AllSound (input ∷ inputs) v
          add pinned (cache, none) (t, ps) = (t, (pinned, ps))
          add pinned (cache, some s) t = t

  -- Where each kept hash of this host is that of its identity's content, and a checksum during which the
  -- identity stays is that of the content, inputs are accepted only if each has its pinned size and the
  -- content of its pinned hash, and the cache stays as true as it was, whether it was read or measured.
  pub verify_inputs-pins :
      (cache : Cache) (inputs : List Input) (cache' : Cache)
      → TrueCache host content cache
      → All (λ (i : Input). Honest host content i.seen) inputs
      → verify_inputs host cache inputs ≡ (cache', none)
      → TrueCache host content cache' × All Pinned inputs
  verify_inputs-pins cache inputs cache' t honest e =
      subst (AllSound inputs) e (verify_inputs-Sound cache inputs t honest)
