-- ===== src/Bench/Export/Package.antt =====
-- What an export leaves in its destination, and that a retry completes what an interrupted one began.
use zpq.Common.{
  ℕ, zero, suc, ◌≡◌, ◌≢◌, refl, sym, ap, subst, ◌∙◌, Bool, true, false, not, ◌||◌, List, [], ◌∷◌,
  ◌++◌, inl, inr, ◌⊎◌,
}
use zpq.Common.Tests.{Bool-cases}
use zpq.Common.Lists.{All, All-of-Mem, take}
use zpq.Common.Result.{ok, value_error, guard->>-eq-ok, >>=-eq-ok, ok-injective}
use zpq.Bench.Names.{elem}
use zpq.Bench.Names.Members.{Mem-elem}
use zpq.Bench.Export.{
  leads_to, absent, file, Folder, Parts, overlaps, is_compatible, check_targets, write_new,
  write_files, write_package,
}
use mathlib.Core.List.{Memᴰ}
use mathlib.Core.List.Memᴰ as Memᴰ
use mathlib.Core.Path.{fun_ext}
use Prim.Native.String.{String}
use text.Mathlib.Text.{◌==◌ as str_eq}
use text.Mathlib.TextEquality.{eq_iff}
use zpq.Bench.Export.Writes.{
  Files, file_names, Distinct, Clear, check_targets-Clear, Clear-check_targets, neither,
  write_files-other, write_files-kept, write_files-done, written_or_not,
}

-- What `e` has and `d` has not is one of the files.
abbrev Partly : Files → Folder → Folder → Type 0
Partly files d e = (m : String) → (e m ≡ d m) ⊎ ((x : String) × Memᴰ (m, x) files × (e m ≡ file x))

Partly-take : (k : ℕ) (files : Files) (d : Folder) → Partly files d (write_files (take k files) d)
unfolding write_files
Partly-take zero files d m = inl refl
Partly-take (suc k) [] d m = inl refl
Partly-take (suc k) ((n, x) ∷ files) d m = elim (Partly-take k files (write_new (n, x) d) m) [
  | inr (y, among, is) ↦ inr (y, Memᴰ.tail among, is)
  | inl same ↦ elim (written_or_not n x d m) [
    | inl as_before ↦ inl (same ∙ as_before)
    | inr (at, is) ↦ inr (x, Memᴰ.head (ap (λ m. (m, x)) at), same ∙ is)
  ]
]

named : {n x : String} (files : Files) → Memᴰ (n, x) files → elem n (file_names files) ≡ true
named {n} files m = Mem-elem n (file_names files) (go files m)
  where
    go : (files : Files) {f : String × String} → Memᴰ f files → Memᴰ f.0 (file_names files)
    go [] m = absurd (Memᴰ.not-nil m)
    go (g ∷ files) m = elim (Memᴰ.cases_cons m) [
      | inl same ↦ Memᴰ.head (ap (λ (f : String × String). f.0) same)
      | inr later ↦ Memᴰ.tail (go files later)
    ]

one_content :
    (files : Files) (n x y : String)
    → Distinct files
    → Memᴰ (n, x) files
    → Memᴰ (n, y) files
    → x ≡ y
one_content [] n x y u m k = absurd (Memᴰ.not-nil m)
one_content (g ∷ files) n x y (once, u) m k = elim (Memᴰ.cases_cons m) [
  | inl first ↦ elim (Memᴰ.cases_cons k) [
    | inl also ↦ ap (λ (f : String × String). f.1) (first ∙ sym also)
    | inr later ↦ absurd (clash files g n y first once later)
  ]
  | inr before ↦ elim (Memᴰ.cases_cons k) [
    | inl also ↦ absurd (clash files g n x also once before)
    | inr later ↦ one_content files n x y u before later
  ]
]
  where
    clash :
        (files : Files) (g : String × String) (n y : String) {z : String}
        → (n, z) ≡ g
        → elem g.0 (file_names files) ≡ false
        → Memᴰ (n, y) files
        → ⊥
    clash files g n y same once m =
        let there = named files m in
        let key : n ≡ g.0 = ap (λ (f : String × String). f.0) same in cc (rw key at there)

Clear-at :
    (files : Files) (d : Folder) {f : String × String}
    → Clear files d
    → Memᴰ f files
    → is_compatible (d f.0) f.1 ≡ true
Clear-at [] d c m = absurd (Memᴰ.not-nil m)
Clear-at (g ∷ files) d (free, c) m = elim (Memᴰ.cases_cons m) [
  | inl same ↦ rw same free
  | inr later ↦ Clear-at files d c later
]

Partly-Clear :
    (files : Files) (d e : Folder)
    → Distinct files
    → Clear files d
    → Partly files d e
    → Clear files e
unfolding is_compatible
Partly-Clear files d e u c p = All-of-Mem files go
  where
    go : (f : String × String) → Memᴰ f files → is_compatible (e f.0) f.1 ≡ true
    go (n, x) m = elim (p n) [
      | inl same ↦ rw same (Clear-at files d c m)
      | inr (y, among, is) ↦ rw is ((eq_iff y x).1 (one_content files n y x u among m))
    ]

content_of :
    (files : Files) (n : String)
    → elem n (file_names files) ≡ true
    → (x : String) × Memᴰ (n, x) files
content_of [] n h = cc
content_of ((m, x) ∷ files) n h = elim (Bool-cases (str_eq n m)) [
  | inl same ↦ (x, Memᴰ.head (ap (λ n. (n, x)) ((eq_iff n m).0 same)))
  | inr other ↦ let (y, later) = content_of files n (rw other at h) in (y, Memᴰ.tail later)
]

unnamed :
    {files : Files} (d e : Folder) {m : String}
    → elem m (file_names files) ≡ false
    → (e m ≡ d m) ⊎ ((x : String) × Memᴰ (m, x) files × (e m ≡ file x))
    → e m ≡ d m
unnamed d e out (inl same) = same
unnamed {files} d e out (inr (x, among, is)) = absurd (cc (named files among))

written :
    (files : Files) (d : Folder) {f : String × String}
    → Distinct files
    → Clear files d
    → Memᴰ f files
    → write_files files d f.0 ≡ file f.1
written files d u c m = at files (write_files-done files d u c) m
  where
    at :
        (fs : Files) {f : String × String}
        → All (λ f. write_files files d f.0 ≡ file f.1) fs
        → Memᴰ f fs
        → write_files files d f.0 ≡ file f.1
    at [] h m = absurd (Memᴰ.not-nil m)
    at (g ∷ fs) (is, h) m = elim (Memᴰ.cases_cons m) [
      | inl same ↦ rw same is
      | inr later ↦ at fs h later
    ]

Partly-write_files :
    (files : Files) (d e : Folder)
    → Distinct files
    → Clear files d
    → Partly files d e
    → write_files files e ≡ write_files files d
Partly-write_files files d e u c p = fun_ext go
  where
    go : (m : String) → write_files files e m ≡ write_files files d m
    go m = elim (Bool-cases (elem m (file_names files))) [
      | inl among ↦
          let (x, there) = content_of files m among in
          written files e u (Partly-Clear files d e u c p) there ∙ sym (written files d u c there)
      | inr out ↦
          write_files-other files e m out
          ∙ (unnamed d e out (p m) ∙ sym (write_files-other files d m out))
    ]

leads_to-append : (p r : Parts) → leads_to p (p ++ r) ≡ true
unfolding leads_to
leads_to-append [] r = refl
leads_to-append (a ∷ p) r = rw ((eq_iff a a).1 refl) (leads_to-append p r)

-- Neither path is the other's, nor inside it.
abbrev pub Apart : Parts → Parts → Type 0
Apart p q = ((r : Parts) → q ≢ p ++ r) × ((r : Parts) → p ≢ q ++ r)

differ : {b : Bool} → b ≡ false → b ≡ true → ⊥
differ h k = cc

overlaps-Apart : (out : Parts) (ps : List Parts) → overlaps out ps ≡ false → All (Apart out) ps
unfolding overlaps
overlaps-Apart out [] h = tt
overlaps-Apart out (p ∷ ps) h =
    let (here, rest) = neither (leads_to out p || leads_to p out) (overlaps out ps) h in
    let (above, below) = neither (leads_to out p) (leads_to p out) here in
    (
      (
        λ r e. differ (rw e at above) (leads_to-append out r),
        λ r e. differ (rw e at below) (leads_to-append p r),
      ),
      overlaps-Apart out ps rest,
    )

-- What a package that is written went through.
package_parts :
    (is_link : Bool) (out : Parts) (protected : List Parts) (files : Files) (d d' : Folder)
    → write_package is_link out protected files d ≡ ok d'
    → (is_link ≡ false)
      × (overlaps out protected ≡ false)
      × Clear files d
      × (d' ≡ write_files files d)
unfolding write_package
package_parts is_link out protected files d d' h =
    let (free, checked) = guard->>-eq-ok (not (is_link || overlaps out protected)) value_error h in
    let (u, clear, made) = >>=-eq-ok (check_targets files d) _ checked in
    let (real, apart) = neither is_link (overlaps out protected) (not_true _ free) in
    (real, apart, check_targets-Clear files d clear, sym (ok-injective made))
  where
    not_true : (b : Bool) → not b ≡ true → b ≡ false
    not_true true h = cc
    not_true false h = refl

-- Where export writes its package, the destination is no link, and no source is the destination, inside it or
-- around it. Each file is there with its content, and nothing that was there before has changed, neither under
-- the name of a file nor under another; under no other name has anything appeared.
pub write_package_complete :
    (is_link : Bool) (out : Parts) (protected : List Parts) (files : Files) (d d' : Folder)
    → Distinct files
    → write_package is_link out protected files d ≡ ok d'
    → (is_link ≡ false)
      × All (Apart out) protected
      × All (λ f. d' f.0 ≡ file f.1) files
      × ((n : String) → d n ≢ absent → d' n ≡ d n)
      × ((n : String) → elem n (file_names files) ≡ false → d' n ≡ d n)
write_package_complete is_link out protected files d d' u h =
    let (real, apart, clear, made) = package_parts is_link out protected files d d' h in
    (
      real,
      overlaps-Apart out protected apart,
      subst (λ d'. All (λ f. d' f.0 ≡ file f.1) files) (sym made)
          (write_files-done files d u clear),
      λ n there. ap (λ (d' : Folder). d' n) made ∙ write_files-kept files d n there,
      λ n other. ap (λ (d' : Folder). d' n) made ∙ write_files-other files d n other,
    )

-- An export that was interrupted behind any number of its files, and one that was not, is completed by a retry
-- to the very destination that an uninterrupted one leaves.
pub write_package-resumes :
    (is_link : Bool) (out : Parts) (protected : List Parts) (files : Files) (d d' : Folder) (k : ℕ)
    → Distinct files
    → write_package is_link out protected files d ≡ ok d'
    → write_package is_link out protected files (write_files (take k files) d) ≡ ok d'
unfolding write_package
write_package-resumes is_link out protected files d d' k u h =
    let (real, apart, clear, made) = package_parts is_link out protected files d d' h in
    let part = Partly-take k files d in
    rw
      (
        real,
        apart,
        Clear-check_targets files (write_files (take k files) d)
            (Partly-Clear files d _ u clear part),
        Partly-write_files files d _ u clear part,
      )
      (ap ok (sym made))
