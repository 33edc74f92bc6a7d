-- ===== src/Bench/Quick/Inputs.antt =====
-- bench/quick.py: InputHashes, the checksums of inputs that are kept from run to run, and verify_inputs.
pub mod Content
use zpq.Common.{
  ℕ, ◌≡◌, ◌≢◌, refl, sym, ap, subst, ◌∙◌, Bool, true, false, not, ◌&&◌, Option, none, some, List,
  [], ◌∷◌, inl, inr,
}
use zpq.Common.Tests.{◌==◌, if◌then◌else◌, Bool-cases, Option-cases, both, ==_iff}
use zpq.Common.Lists.{All}
use zpq.Bench.Quick.{Stop, expired, mismatch}
use Prim.Native.String.{String}
use text.Mathlib.Text.{◌==◌ as str_eq}
use text.Mathlib.TextEquality.{eq_iff}

-- InputHashes.identity
pub record Identity : Type 0 where
  pub path : String
  pub size : ℕ
  pub mtime_ns : ℕ
  pub inode : ℕ

unfoldable pub same_file : Identity → Identity → Bool
same_file a b =
    str_eq a.path b.path && (a.size == b.size) && (a.mtime_ns == b.mtime_ns) && (a.inode == b.inode)

-- A kept verdict, under the host and path. `well_formed` is the test of its schema, hash and time.
pub record Entry : Type 0 where
  pub host : String
  pub identity : Identity
  pub sha256 : String
  pub well_formed : Bool

-- The cache: an entry by host and path, the newest first.
abbrev pub Cache : Type 0
Cache = List (String × String × Entry)

unfoldable pub kept : String → String → Cache → Option Entry
kept host path [] = none
kept host path ((h, p, entry) ∷ rest) =
    if str_eq h host && str_eq p path then some entry else kept host path rest

-- What is seen of a file in one call of `verify`: its identity at the start, behind the checksum and at the
-- end, the checksum, and whether the time has run out before it, behind it or at the end.
pub record Seen : Type 0 where
  pub before : Identity
  pub behind : Identity
  pub last : Identity
  pub digest : String
  pub late_before : Bool
  pub late_behind : Bool
  pub late_last : Bool

-- A result with the cache, whatever the result.
abbrev pub Verified : Type 0
Verified = Cache × Option Stop

unfoldable pub is_hit : String → Identity → Option Entry → Bool
unfolding same_file
is_hit host i none = false
is_hit host i (some entry) =
    entry.well_formed && str_eq entry.host host && same_file entry.identity i

-- verify, behind the entry that it uses: the time, the identity once more, and the expected hash.
unfoldable pub compare_with : Seen → (expected : String) → Cache → (sha256 : String) → Verified
unfolding same_file
compare_with seen wanted cache sha256 =
    if seen.late_last
    then (cache, some expired)
    else if not (same_file seen.last seen.before)
    then (cache, some mismatch)
    else if str_eq sha256 wanted
    then (cache, none)
    else (cache, some mismatch)

-- verify without a hit: the checksum, kept if the file did not change meanwhile.
unfoldable pub measure : String → Seen → (expected : String) → Cache → Verified
unfolding same_file compare_with
measure host seen wanted cache =
    if seen.late_behind
    then (cache, some expired)
    else if not (same_file seen.behind seen.before)
    then (cache, some mismatch)
    else let entry : Entry = record {
      host = host;
      identity = seen.before;
      sha256 = seen.digest;
      well_formed = true;
    } in
      compare_with seen wanted ((host, seen.before.path, entry) ∷ cache) seen.digest

unfoldable pub use_entry : String → Seen → (expected : String) → Cache → Option Entry → Verified
unfolding compare_with measure
use_entry host seen wanted cache none = measure host seen wanted cache
use_entry host seen wanted cache (some entry) = compare_with seen wanted cache entry.sha256

-- InputHashes.verify
unfoldable pub verify : String → Seen → (expected : String) → Cache → Verified
unfolding kept is_hit use_entry
verify host seen wanted cache =
    let entry = kept host seen.before.path cache in
    if seen.late_before
    then (cache, some expired)
    else use_entry host seen wanted cache (if is_hit host seen.before entry then entry else none)

-- An input of the manifest: the pinned hash and size, whether the pin is a hash, and whether the object that
-- stands for it is the same file.
pub record Input : Type 0 where
  pub sha256 : String
  pub bytes : ℕ
  pub is_full_hash : Bool
  pub same_object : Bool
  pub seen : Seen
  pub size : ℕ

-- verify_inputs: one input
unfoldable pub verify_input : String → Cache → Input → Verified
unfolding verify
verify_input host cache input =
    if not (input.is_full_hash && (input.size == input.bytes))
    then (cache, some mismatch)
    else if not input.same_object
    then (cache, some mismatch)
    else verify host input.seen input.sha256 cache

-- verify_inputs
unfoldable pub verify_inputs : String → Cache → List Input → Verified
unfolding verify_input
verify_inputs host cache [] = (cache, none)
verify_inputs host cache (input ∷ inputs) =
    let (cache', stop) = verify_input host cache input in
    elim stop [ some s ↦ (cache', some s) | none ↦ verify_inputs host cache' inputs ]

-- On host `host` a file with this identity has this content's hash.
module _ (host : String) (content : Identity → String) where
  abbrev pub TrueEntry : String × String × Entry → Type 0
  TrueEntry (h, p, entry) = entry.host ≡ host → entry.sha256 ≡ content entry.identity

  abbrev pub TrueCache : Cache → Type 0
  TrueCache = All TrueEntry

  -- The checksum of a file whose identity is the same before and behind it is that of its content.
  abbrev pub Honest : Seen → Type 0
  Honest seen = seen.behind ≡ seen.before → seen.digest ≡ content seen.before
