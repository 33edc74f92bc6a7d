-- ===== src/Bench/Export/Writes.antt =====
-- bench/export.py, export: what the writes of a package leave as it is, and what they make.
use zpq.Common.{
  ◌≡◌, ◌≢◌, refl, sym, ap, ◌∙◌, Bool, true, false, ◌||◌, List, [], ◌∷◌, map, inl, inr, ◌⊎◌,
}
use zpq.Common.Tests.{Bool-cases}
use zpq.Common.Lists.{All}
use zpq.Common.Result.{ok, value_error, guard->>-eq-ok}
use zpq.Bench.Names.{elem}
use zpq.Bench.Export.{
  Node, absent, link, file, Folder, is_compatible, check_targets, write_at, write_new, write_files,
}
use Prim.Native.String.{String}
use text.Mathlib.Text.{◌==◌ as str_eq}
use text.Mathlib.TextEquality.{eq_iff}

abbrev pub Files : Type 0
Files = List (String × String)

abbrev pub file_names : Files → List String
file_names files = map (λ f. f.0) files

-- The keys of a dict.
abbrev pub Distinct : Files → Type 0
Distinct [] = Unit
Distinct (f ∷ files) = (elem f.0 (file_names files) ≡ false) × Distinct files

-- No target stands in the way of its file.
abbrev pub Clear : Files → Folder → Type 0
Clear files d = All (λ f. is_compatible (d f.0) f.1 ≡ true) files

pub check_targets-Clear :
    (files : Files) (d : Folder) → check_targets files d ≡ ok tt → Clear files d
unfolding check_targets
check_targets-Clear [] d h = tt
check_targets-Clear ((n, x) ∷ files) d h =
    let (free, rest) = guard->>-eq-ok (is_compatible (d n) x) value_error h in
    (free, check_targets-Clear files d rest)

pub Clear-check_targets :
    (files : Files) (d : Folder) → Clear files d → check_targets files d ≡ ok tt
unfolding check_targets
Clear-check_targets [] d h = refl
Clear-check_targets ((n, x) ∷ files) d (free, h) = rw free (Clear-check_targets files d h)

pub neither : (a b : Bool) → a || b ≡ false → (a ≡ false) × (b ≡ false)
neither true b h = cc
neither false b h = (refl, h)

other_way : (a b : String) → str_eq a b ≡ false → str_eq b a ≡ false
other_way a b h = elim (Bool-cases (str_eq b a)) [
  | inr other ↦ other
  | inl same ↦ let e = (eq_iff b a).0 same in cc ((eq_iff a b).1 (sym e))
]

-- A write leaves every other name as it is, and every node that is there.
pub write_new-other :
    (f : String × String) (d : Folder) (m : String) → str_eq m f.0 ≡ false → write_new f d m ≡ d m
unfolding write_new
write_new-other (n, x) d m other = go (d n)
  where
    go : (node : Node) → write_at node n x d m ≡ d m
    go absent = rw other refl
    go link = refl
    go (file y) = refl

write_new-kept :
    (f : String × String) (d : Folder) (m : String) → d m ≢ absent → write_new f d m ≡ d m
unfolding write_new
write_new-kept (n, x) d m there = go (d n) refl
  where
    go : (node : Node) → d n ≡ node → write_at node n x d m ≡ d m
    go absent free = elim (Bool-cases (str_eq m n)) [
      | inl same ↦ absurd (there (ap d ((eq_iff m n).0 same) ∙ free))
      | inr other ↦ rw other refl
    ]
    go link is = refl
    go (file y) is = refl

write_new-done :
    (n x : String) (d : Folder) → is_compatible (d n) x ≡ true → write_new (n, x) d n ≡ file x
unfolding write_new is_compatible
write_new-done n x d free = go (d n) refl free
  where
    go : (node : Node) → d n ≡ node → is_compatible node x ≡ true → write_at node n x d n ≡ file x
    go absent is free = rw ((eq_iff n n).1 refl) refl
    go link is free = cc
    go (file y) is free = is ∙ ap file ((eq_iff y x).0 free)

pub write_files-other :
    (files : Files) (d : Folder) (m : String)
    → elem m (file_names files) ≡ false
    → write_files files d m ≡ d m
unfolding write_files
write_files-other [] d m h = refl
write_files-other (f ∷ files) d m h =
    let (other, rest) = neither (str_eq m f.0) (elem m (file_names files)) h in
    write_files-other files (write_new f d) m rest ∙ write_new-other f d m other

pub write_files-kept :
    (files : Files) (d : Folder) (m : String) → d m ≢ absent → write_files files d m ≡ d m
unfolding write_files
write_files-kept [] d m h = refl
write_files-kept (f ∷ files) d m h =
    let same = write_new-kept f d m h in write_files-kept files (write_new f d) m (rw same h) ∙ same

Clear-write_new :
    (f : String × String) (files : Files) (d : Folder)
    → elem f.0 (file_names files) ≡ false
    → Clear files d
    → Clear files (write_new f d)
Clear-write_new f [] d h c = tt
Clear-write_new f (g ∷ files) d h (free, c) =
    let (other, rest) = neither (str_eq f.0 g.0) (elem f.0 (file_names files)) h in
    let same : write_new f d g.0 ≡ d g.0 = write_new-other f d g.0 (other_way f.0 g.0 other) in
    (rw same free, Clear-write_new f files d rest c)

pub write_files-done :
    (files : Files) (d : Folder)
    → Distinct files
    → Clear files d
    → All (λ f. write_files files d f.0 ≡ file f.1) files
unfolding write_files
write_files-done [] d u c = tt
write_files-done ((n, x) ∷ files) d (once, u) (free, c) = (
  write_files-other files (write_new (n, x) d) n once ∙ write_new-done n x d free,
  write_files-done files (write_new (n, x) d) u (Clear-write_new (n, x) files d once c),
)

pub written_or_not :
    (n x : String) (d : Folder) (m : String)
    → (write_new (n, x) d m ≡ d m) ⊎ ((m ≡ n) × (write_new (n, x) d m ≡ file x))
unfolding write_new
written_or_not n x d m = go (d n)
  where
    go :
        (node : Node) → (write_at node n x d m ≡ d m) ⊎ ((m ≡ n) × (write_at node n x d m ≡ file x))
    go absent = elim (Bool-cases (str_eq m n)) [
      | inl same ↦ inr ((eq_iff m n).0 same, rw same refl)
      | inr other ↦ inl (rw other refl)
    ]
    go link = inl refl
    go (file y) = inl refl
