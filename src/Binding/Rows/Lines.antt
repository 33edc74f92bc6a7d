-- ===== src/Binding/Rows/Lines.antt =====
-- The lines of a text of rows that each end in a newline are those rows.
use zpq.Common.{◌≡◌, refl, ap, ◌∙◌, Bool, true, false, not, ◌&&◌, List, [], ◌∷◌, inl, inr}
use zpq.Common.Tests.{◌==◌, both, Bool-cases}
use zpq.Common.Lists.{All}
use zpq.Bench.Names.{is_nil}
use zpq.Binding.Rows.{attach, split_lines, drop_last_empty, lines_of}
use Prim.Native.Char.{code}
use Prim.Native.String.{String}

-- No character of a row is a newline.
unfoldable pub is_line : String → Bool
is_line String.[] = true
is_line (String.◌∷◌ c s) = not (code c == 10) && is_line s

-- A row, a newline, and what follows.
unfoldable pub ended_by : String → String → String
ended_by String.[] s = String.◌∷◌ "\n" s
ended_by (String.◌∷◌ c row) s = String.◌∷◌ c (ended_by row s)

unfoldable pub written : List String → String
unfolding ended_by
written [] = ""
written (row ∷ rows) = ended_by row (written rows)

split_lines-ended_by :
    (row s : String) → is_line row ≡ true → split_lines (ended_by row s) ≡ row ∷ split_lines s
unfolding split_lines ended_by attach is_line
split_lines-ended_by String.[] s h = refl
split_lines-ended_by (String.◌∷◌ c row) s h =
    let (other, later) = both (not (code c == 10)) (is_line row) h in
    rw (not-true (code c == 10) other, split_lines-ended_by row s later) refl
  where
    not-true : (b : Bool) → not b ≡ true → b ≡ false
    not-true false e = refl
    not-true true e = cc

split_lines-full : (s : String) → is_nil (split_lines s) ≡ false
unfolding split_lines attach
split_lines-full String.[] = refl
split_lines-full (String.◌∷◌ c s) = elim (Bool-cases (code c == 10)) [
  | inl end ↦ rw end refl
  | inr on ↦ rw on (attached (split_lines s))
]
  where
    attached : (ls : List String) → is_nil (attach c ls) ≡ false
    attached [] = refl
    attached (l ∷ ls) = refl

drop_last_empty-cons :
    (line : String) (lines : List String)
    → is_nil lines ≡ false
    → drop_last_empty (line ∷ lines) ≡ line ∷ drop_last_empty lines
unfolding drop_last_empty
drop_last_empty-cons line [] h = cc
drop_last_empty-cons line (next ∷ lines) h = refl

-- The lines that query reads of rows written one to a line, none of which holds a newline, are those rows, empty
-- ones included.
pub lines_of-written :
    (rows : List String) → All (λ row. is_line row ≡ true) rows → lines_of (written rows) ≡ rows
unfolding lines_of written drop_last_empty
lines_of-written [] h = refl
lines_of-written (row ∷ rows) (h, hs) =
    ap drop_last_empty (split_lines-ended_by row (written rows) h)
    ∙ drop_last_empty-cons row (split_lines (written rows)) (split_lines-full (written rows))
    ∙ ap (λ ls. row ∷ ls) (lines_of-written rows hs)
