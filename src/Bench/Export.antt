-- ===== src/Bench/Export.antt =====
-- bench/export.py: the package of an export, and what is said of each saved attempt.
pub mod Writes
pub mod Package
pub mod Attempts
pub mod Complete
use zpq.Common.{Bool, true, false, not, ◌||◌, List, [], ◌∷◌, map}
use zpq.Common.Tests.{if◌then◌else◌}
use zpq.Common.Result.{Result, ok, ◌>>◌, guard, value_error}
use Prim.Native.String.{String}
use text.Mathlib.Text.{◌==◌ as str_eq}

-- What stands at a name of the destination; a content stands for its bytes.
pub data Node : Type 0 where
  absent link : Node
  file : String → Node

abbrev pub Folder : Type 0
Folder = String → Node

-- A resolved path, by its segments.
abbrev pub Parts : Type 0
Parts = List String

unfoldable pub leads_to : Parts → Parts → Bool
leads_to [] q = true
leads_to (a ∷ p) [] = false
leads_to (a ∷ p) (b ∷ q) = if str_eq a b then leads_to p q else false

-- out == p or out in p.parents or p in out.parents
unfoldable pub overlaps : Parts → List Parts → Bool
unfolding leads_to
overlaps out [] = false
overlaps out (p ∷ ps) = (leads_to out p || leads_to p out) || overlaps out ps

-- not target.is_symlink() and not (target.exists() and target.read_bytes() != data)
unfoldable pub is_compatible : Node → String → Bool
is_compatible absent x = true
is_compatible link x = false
is_compatible (file y) x = str_eq y x

-- Check the entire package before any write.
unfoldable pub check_targets : List (String × String) → Folder → Result (Unit {0})
unfolding is_compatible
check_targets [] d = ok tt
check_targets ((name, x) ∷ files) d = do
  guard (is_compatible (d name) x) value_error
  check_targets files d

abbrev pub put_file : String → String → Folder → Folder
put_file name x d n = if str_eq n name then file x else d n

-- if not target.exists(): target.open("xb").write(data)
abbrev pub write_at : Node → String → String → Folder → Folder
write_at absent name x d = put_file name x d
write_at link name x d = d
write_at (file y) name x d = d

unfoldable pub write_new : String × String → Folder → Folder
write_new (name, x) d = write_at (d name) name x d

unfoldable pub write_files : List (String × String) → Folder → Folder
unfolding write_new
write_files [] d = d
write_files (f ∷ files) d = write_files files (write_new f d)

-- export, from the destination on: whether it is a link, its resolved path, and those of the sources.
unfoldable pub write_package :
    Bool → Parts → List Parts → List (String × String) → Folder → Result Folder
unfolding overlaps check_targets write_files
write_package is_link out protected files d = do
  guard (not (is_link || overlaps out protected)) value_error
  check_targets files d
  ok (write_files files d)
