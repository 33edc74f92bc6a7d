-- ===== src/Checks/Commas.antt =====
-- tools/serverless/fanout.py, split_top: a list with a call, a quoted comma and a blank item.
use zpq.Common.{◌≡◌, refl, not, List, [], ◌∷◌, map}
use zpq.Common.Lists.{All}
use zpq.Common.Int.{◌+ℤ◌}
use zpq.Bench.Names.{filter}
use zpq.Bench.Requests.Values.{is_space}
use zpq.Fanout.Commas.{is_cut, behind, strip, split_top}
use zpq.Fanout.Commas.Pieces.{Closed, scan, join, comma, split_top-join}
use Prim.Native.String.{String}
use text.Mathlib.Text.{◌==◌ as str_eq}

split_top-run : split_top "sum(a, b) AS s,, ',' " ≡ "sum(a, b) AS s" ∷ "','" ∷ []
unfolding split_top is_space ◌+ℤ◌
split_top-run = refl

abbrev last_pieces : List String
last_pieces = "" ∷ " ',' " ∷ []

first-Closed : Closed 44 "sum(a, b) AS s"
unfolding scan is_cut behind ◌+ℤ◌
first-Closed = refl

last_pieces-Closed : All (Closed 44) last_pieces
unfolding scan is_cut behind
last_pieces-Closed = (refl, (refl, tt))

split_top-join_example :
    split_top (join comma "sum(a, b) AS s" last_pieces)
    ≡ filter (λ part. not (str_eq part "")) (map strip ("sum(a, b) AS s" ∷ last_pieces))
split_top-join_example = split_top-join "sum(a, b) AS s" last_pieces first-Closed last_pieces-Closed
