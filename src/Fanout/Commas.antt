-- ===== src/Fanout/Commas.antt =====
-- tools/serverless/fanout.py and bench/suites.py, split_top: a text cut at a separator outside parentheses and
-- quotes.
pub mod Pieces
use zpq.Common.{ℕ, Bool, true, false, not, ◌&&◌, ◌||◌, Option, none, some, List, [], ◌∷◌, map}
use zpq.Common.Tests.{◌==◌, if◌then◌else◌}
use zpq.Common.Int.{ℤ, pos, negsuc, ◌+ℤ◌, eqb_ℤ}
use zpq.Bench.Names.{filter}
use zpq.Bench.Requests.Values.{is_space}
use Prim.Native.Char.{Char, code}
use Prim.Native.String.{String}
use text.Mathlib.Text.{◌==◌ as str_eq}

-- depth, and the quote that is open.
pub record Scan : Type 0 where
  pub depth : ℤ
  pub quote : Option ℕ

abbrev pub outside : Scan
outside = record { depth = pos 0; quote = none }

-- c in "'\""
abbrev pub is_quote : ℕ → Bool
is_quote c = (c == 39) || (c == 34)

-- Where no quote is open: the state behind a character.
unfoldable pub behind_open : ℤ → ℕ → Scan
behind_open d c =
    if is_quote c
    then record { depth = d; quote = some c }
    else if c == 40
    then record { depth = d +ℤ pos 1; quote = none }
    else if c == 41
    then record { depth = d +ℤ negsuc 0; quote = none }
    else record { depth = d; quote = none }

unfoldable pub behind : Scan → ℕ → Scan
unfolding behind_open
behind st c = elim st.quote [
  | none ↦ behind_open st.depth c
  | some q ↦ record { depth = st.depth; quote = if c == q then none else some q }
]

-- The separator, at depth 0, in no quote, and no quote or parenthesis itself.
unfoldable pub is_cut : (sep : ℕ) → Scan → ℕ → Bool
is_cut sep st c = elim st.quote [
  | some q ↦ false
  | none ↦ not (is_quote c || (c == 40) || (c == 41)) && (c == sep) && eqb_ℤ st.depth (pos 0)
]

unfoldable pub put_first : Char → List String → List String
put_first c [] = String.◌∷◌ c "" ∷ []
put_first c (part ∷ parts) = String.◌∷◌ c part ∷ parts

-- The parts as they stand in the text.
unfoldable pub cut_parts : (sep : ℕ) → Scan → String → List String
unfolding behind is_cut put_first
cut_parts sep st String.[] = "" ∷ []
cut_parts sep st (String.◌∷◌ c s) =
    let rest = cut_parts sep (behind st (code c)) s in
    if is_cut sep st (code c) then "" ∷ rest else put_first c rest

-- text.strip()
unfoldable pub strip_left : String → String
strip_left String.[] = String.[]
strip_left (String.◌∷◌ c s) =
    let rest = strip_left s in if is_space (code c) then rest else String.◌∷◌ c s

unfoldable pub strip_right : String → String
strip_right String.[] = String.[]
strip_right (String.◌∷◌ c s) =
    let rest = strip_right s in
    if is_space (code c) && str_eq rest "" then String.[] else String.◌∷◌ c rest

unfoldable pub strip : String → String
unfolding strip_left strip_right
strip s = strip_right (strip_left s)

-- split_top of bench/suites.py
unfoldable pub split_by : (sep : ℕ) → String → List String
unfolding cut_parts strip
split_by sep s = map strip (cut_parts sep outside s)

-- split_top of tools/serverless/fanout.py
unfoldable pub split_top : String → List String
unfolding split_by
split_top s = filter (λ part. not (str_eq part "")) (split_by 44 s)
