-- ===== src/Thrift/Value.antt =====
-- tools/datagen/parquet.py: the values that the compact-protocol reader yields and the writer takes.
use zpq.Common.{ℕ, suc, max, Bool, List, ◌||◌, Option, none, some}
use zpq.Common.Tests.{◌==◌, if◌then◌else◌}
use zpq.Common.Int.{ℤ, ltb_ℤ, eqb_ℤ}

abbrev pub Bytes : Type 0
Bytes = List ℕ

-- A struct is a list of [id, type, value]; a list or a set is the pair (element type, items).
-- A Python int is one constructor, whichever tag it was read under.
mutual
  pub data Value : Type 0 where
    bool : Bool → Value
    int : ℤ → Value
    bytes : Bytes → Value
    list : ℕ → Items → Value
    struct : Fields → Value

  pub data Items : Type 0 where
    nil : Items
    cons : Value → Items → Items

  pub data Fields : Type 0 where
    no_fields : Fields
    field : ℤ → ℕ → Value → Fields → Fields

-- T_TRUE .. T_STRUCT = range(1, 13)
abbrev pub t_true : ℕ
t_true = 1

abbrev pub t_false : ℕ
t_false = 2

abbrev pub t_byte : ℕ
t_byte = 3

abbrev pub t_i16 : ℕ
t_i16 = 4

abbrev pub t_i32 : ℕ
t_i32 = 5

abbrev pub t_i64 : ℕ
t_i64 = 6

abbrev pub t_double : ℕ
t_double = 7

abbrev pub t_binary : ℕ
t_binary = 8

abbrev pub t_list : ℕ
t_list = 9

abbrev pub t_set : ℕ
t_set = 10

abbrev pub t_map : ℕ
t_map = 11

abbrev pub t_struct : ℕ
t_struct = 12

abbrev pub is_bool : ℕ → Bool
is_bool t = t == t_true || t == t_false

-- The chain of tests on the tag that `Reader.value` and `write_value` share. A map is unsupported.
pub data Kind : Type 0 where
  bool_kind byte_kind int_kind double_kind binary_kind list_kind struct_kind unsupported : Kind

unfoldable pub kind_of : ℕ → Kind
kind_of t =
    if is_bool t
    then bool_kind
    else if t == t_byte
    then byte_kind
    else if t == t_i16 || t == t_i32 || t == t_i64
    then int_kind
    else if t == t_double
    then double_kind
    else if t == t_binary
    then binary_kind
    else if t == t_list || t == t_set
    then list_kind
    else if t == t_struct
    then struct_kind
    else unsupported

-- len(items)
unfoldable pub count_items : Items → ℕ
count_items nil = 0
count_items (cons v vs) = suc (count_items vs)

-- sorted(v, key=lambda f: f[0]): a stable sort by the field id.
unfoldable pub insert_field : ℤ → ℕ → Value → Fields → Fields
insert_field i t v no_fields = field i t v no_fields
insert_field i t v (field j u w fs) =
    if ltb_ℤ j i then field j u w (insert_field i t v fs) else field i t v (field j u w fs)

unfoldable pub sort_fields : Fields → Fields
unfolding insert_field
sort_fields no_fields = no_fields
sort_fields (field i t v fs) = insert_field i t v (sort_fields fs)

-- next((f for f in fields if f[0] == fid), None): the first field of that id, as its type and value.
unfoldable pub find_field : Fields → ℤ → Option (ℕ × Value)
find_field no_fields i = none
find_field (field j t v fs) i = if eqb_ℤ j i then some (t, v) else find_field fs i

-- How deep the calls for a value go.
unfoldable mutual
  pub depth : Value → ℕ
  depth (bool b) = 0
  depth (int z) = 0
  depth (bytes b) = 0
  depth (list t vs) = suc (depth_items vs)
  depth (struct fs) = suc (depth_fields fs)

  pub depth_items : Items → ℕ
  depth_items nil = 0
  depth_items (cons v vs) = max (depth v) (depth_items vs)

  pub depth_fields : Fields → ℕ
  depth_fields no_fields = 0
  depth_fields (field i t v fs) = max (depth v) (depth_fields fs)
