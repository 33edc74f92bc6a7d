-- ===== src/Fanout/Commas/Pieces.antt =====
-- The parts of a text that is joined of closed pieces are those pieces.
use zpq.Common.{
  ℕ, ◌≡◌, refl, sym, ap, ◌∙◌, Bool, true, not, ◌||◌, Option, none, some, List, [], ◌∷◌, map, inl,
  inr, arith,
}
use zpq.Common.Tests.{◌==◌, if◌then◌else◌, Bool-cases, ==_iff}
use zpq.Common.Lists.{All}
use zpq.Fanout.Commas.{
  Scan, outside, is_quote, behind_open, behind, is_cut, put_first, cut_parts, strip, split_by,
  split_top,
}
use zpq.Bench.Names.{filter}
use text.Mathlib.Text.{◌==◌ as str_eq}
use Prim.Native.Char.{Char, code}
use Prim.Native.String.{String}

-- The state behind a piece in which nothing is cut.
unfoldable pub scan : (sep : ℕ) → Scan → String → Option Scan
scan sep st String.[] = some st
scan sep st (String.◌∷◌ c s) =
    let rest = scan sep (behind st (code c)) s in if is_cut sep st (code c) then none else rest

-- A piece in which nothing is cut and which closes what it opens.
abbrev pub Closed : ℕ → String → Type 0
Closed sep piece = scan sep outside piece ≡ some outside

unfoldable pub before : String → String → String
before String.[] s = s
before (String.◌∷◌ c p) s = String.◌∷◌ c (before p s)

-- The pieces, with the separator between them.
unfoldable pub join : Char → String → List String → String
unfolding before
join c piece [] = piece
join c piece (next ∷ pieces) = before piece (String.◌∷◌ c (join c next pieces))

-- A piece put before the first part.
unfoldable put_before : String → List String → List String
put_before String.[] parts = parts
put_before (String.◌∷◌ c p) parts = put_first c (put_before p parts)

cut_parts-before :
    (sep : ℕ) (st : Scan) (piece s : String) {st' : Scan}
    → scan sep st piece ≡ some st'
    → cut_parts sep st (before piece s) ≡ put_before piece (cut_parts sep st' s)
unfolding scan before put_before cut_parts
cut_parts-before sep st String.[] s h = ap (λ st. cut_parts sep st s) (some_injective h)
  where
    some_injective : {a b : Scan} → some a ≡ some b → a ≡ b
    some_injective e = cc
cut_parts-before sep st (String.◌∷◌ c piece) s {st'} h =
    elim (Bool-cases (is_cut sep st (code c))) [
      | inl cut ↦ absurd (none_some (rw cut at h))
      | inr on ↦
          rw on (ap (put_first c) (cut_parts-before sep (behind st (code c)) piece s (rw on at h)))
    ]
  where
    none_some : ◌≡◌ {A = Option Scan} none (some st') → ⊥
    none_some e = cc

put_before-nil :
    (piece : String) (parts : List String) → put_before piece ("" ∷ parts) ≡ piece ∷ parts
unfolding put_before put_first
put_before-nil String.[] parts = refl
put_before-nil (String.◌∷◌ c piece) parts = ap (put_first c) (put_before-nil piece parts)

before-nil : (piece : String) → before piece "" ≡ piece
unfolding before
before-nil String.[] = refl
before-nil (String.◌∷◌ c piece) = ap (String.◌∷◌ c) (before-nil piece)

-- A separator is no quote and no parenthesis.
abbrev pub separates : ℕ → Bool
separates sep = not (is_quote sep || (sep == 40) || (sep == 41))

is_cut-outside : (sep : ℕ) → separates sep ≡ true → is_cut sep outside sep ≡ true
unfolding is_cut
is_cut-outside sep h = rw h (rw ((==_iff sep sep).1 refl) refl)

behind-outside : (sep : ℕ) → separates sep ≡ true → behind outside sep ≡ outside
unfolding behind behind_open
behind-outside sep h = ground arith

cut_parts-join :
    (c : Char) (piece : String) (pieces : List String)
    → separates (code c) ≡ true
    → Closed (code c) piece
    → All (Closed (code c)) pieces
    → cut_parts (code c) outside (join c piece pieces) ≡ piece ∷ pieces
unfolding join cut_parts
cut_parts-join c piece [] s h hs =
    ap (cut_parts (code c) outside) (sym (before-nil piece))
    ∙ cut_parts-before (code c) outside piece "" h
    ∙ put_before-nil piece []
cut_parts-join c piece (next ∷ pieces) s h (p, ps) =
    cut_parts-before (code c) outside piece (String.◌∷◌ c (join c next pieces)) h
    ∙ ap (put_before piece) (at_cut (cut_parts-join c next pieces s p ps))
    ∙ put_before-nil piece (next ∷ pieces)
  where
    at_cut :
        cut_parts (code c) outside (join c next pieces) ≡ next ∷ pieces
        → cut_parts (code c) outside (String.◌∷◌ c (join c next pieces)) ≡ "" ∷ next ∷ pieces
    at_cut e = rw (is_cut-outside (code c) s, behind-outside (code c) s, e) refl

split_by-join :
    (c : Char) (piece : String) (pieces : List String)
    → separates (code c) ≡ true
    → Closed (code c) piece
    → All (Closed (code c)) pieces
    → split_by (code c) (join c piece pieces) ≡ map strip (piece ∷ pieces)
unfolding split_by
split_by-join c piece pieces s h hs = ap (map strip) (cut_parts-join c piece pieces s h hs)

abbrev pub comma : Char
comma = ","

-- Of pieces that close their quotes and parentheses and have commas only inside of them, joined by commas, the
-- parts are the pieces, each stripped, without those that are blank.
pub split_top-join :
    (piece : String) (pieces : List String)
    → Closed 44 piece
    → All (Closed 44) pieces
    → split_top (join comma piece pieces)
      ≡ filter (λ part. not (str_eq part "")) (map strip (piece ∷ pieces))
unfolding split_top
split_top-join piece pieces h hs =
    ap (filter (λ part. not (str_eq part ""))) (split_by-join comma piece pieces refl h hs)
