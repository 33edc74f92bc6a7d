-- ===== src/Bench/Requests/Values.antt =====
-- The JSON values of a request, read by key, and the tests of their texts. A number is an integer's sign and
-- size, or another number by whether it is 0.
use zpq.Common.{ℕ, zero, suc, Bool, true, false, not, ◌&&◌, ◌||◌, Option, none, some}
use zpq.Common.Tests.{leb, ◌==◌, if◌then◌else◌}
use zpq.Common.Int.{ℤ, pos, eqb_ℤ}
use Prim.Native.Char.{code}
use Prim.Native.String.{String}
use text.Mathlib.Text.{◌==◌ as str_eq}

mutual
  pub data Json : Type 0 where
    null : Json
    bool : Bool → Json
    int : ℤ → Json
    float : (is_zero : Bool) → Json
    string : String → Json
    array : Items → Json
    object : Members → Json

  pub data Items : Type 0 where
    no_items : Items
    item : Json → Items → Items

  pub data Members : Type 0 where
    no_members : Members
    member : String → Json → Members → Members

-- The keys of an object that read accepts are different.
unfoldable pub find : String → Members → Option Json
find key no_members = none
find key (member k j rest) = if str_eq k key then some j else find key rest

-- value.get(key): None is null
unfoldable pub get : String → Members → Json
unfolding find
get key m = elim (find key m) [ none ↦ null | some j ↦ j ]

-- bool(value)
unfoldable pub truthy : Json → Bool
truthy null = false
truthy (bool b) = b
truthy (int z) = not (eqb_ℤ z (pos 0))
truthy (float is_zero) = not is_zero
truthy (string s) = not (str_eq s "")
truthy (array no_items) = false
truthy (array (item j js)) = true
truthy (object no_members) = false
truthy (object (member k j m)) = true

abbrev pub is_text : Json → String → Bool
is_text (string t) s = str_eq t s
is_text _ s = false

unfoldable pub is_hex_digit : ℕ → Bool
is_hex_digit c = (leb 48 c && leb c 57) || (leb 97 c && leb c 102)

-- re.fullmatch("[0-9a-f]{n}", s)
unfoldable pub is_hex : ℕ → String → Bool
unfolding is_hex_digit
is_hex zero String.[] = true
is_hex zero (String.◌∷◌ c s) = false
is_hex (suc n) String.[] = false
is_hex (suc n) (String.◌∷◌ c s) = is_hex_digit (code c) && is_hex n s

unfoldable pub is_slug_head : ℕ → Bool
is_slug_head c = (leb 48 c && leb c 57) || (leb 97 c && leb c 122)

-- [a-z0-9-]{0,n}
unfoldable pub is_slug_tail : ℕ → String → Bool
unfolding is_slug_head
is_slug_tail n String.[] = true
is_slug_tail zero (String.◌∷◌ c s) = false
is_slug_tail (suc n) (String.◌∷◌ c s) =
    (is_slug_head (code c) || (code c == 45)) && is_slug_tail n s

-- re.fullmatch(r"[a-z0-9][a-z0-9-]{0,95}", s)
unfoldable pub is_slug : String → Bool
unfolding is_slug_head is_slug_tail
is_slug String.[] = false
is_slug (String.◌∷◌ c s) = is_slug_head (code c) && is_slug_tail 95 s

-- str.isspace of a character
unfoldable pub is_space : ℕ → Bool
is_space c =
    (leb 9 c && leb c 13)
    || (leb 28 c && leb c 32)
    || (c == 133)
    || (c == 160)
    || (c == 5760)
    || (leb 8192 c && leb c 8202)
    || (c == 8232)
    || (c == 8233)
    || (c == 8239)
    || (c == 8287)
    || (c == 12288)

-- not s.strip()
unfoldable pub is_blank : String → Bool
unfolding is_space
is_blank String.[] = true
is_blank (String.◌∷◌ c s) = is_space (code c) && is_blank s
