-- ===== src/TypeDefs/Defs.antt =====
-- types.go: `TypeDef`, with the predefined types and the table `TypeDefs`. The maps `Fields` and
-- `Offsets` have the same keys, and are one list here.
use jkvlang.Prelude.{
  ℕ, Bool, true, false, List, [], ◌∷◌, ◌++◌, Text, codes, text_eq, Option, none, some,
  if◌then◌else◌, map,
}
use jkvlang.Code.Types
use jkvlang.Code.Types.{PrimaryType, type_eq, type_name, type_size}

mutual
  pub data TypeDef : Type 0 where
    type_def :
        (pt : PrimaryType) (name : Text) (builtin extern : Bool) (struct_size data_offset : ℕ)
        → Element
        → Fields
        → TypeDef

  -- The pointer `Element`, which may be nil.
  pub data Element : Type 0 where
    no_element : Element
    element : TypeDef → Element

  -- Each field's name, type and offset.
  pub data Fields : Type 0 where
    no_fields : Fields
    field : (name : Text) → TypeDef → (offset : ℕ) → Fields → Fields

unfoldable pub pt : TypeDef → PrimaryType
pt (type_def p name builtin extern size offset e fs) = p

unfoldable pub typ_name : TypeDef → Text
typ_name (type_def p name builtin extern size offset e fs) = name

unfoldable pub builtin : TypeDef → Bool
builtin (type_def p name b extern size offset e fs) = b

unfoldable pub struct_size : TypeDef → ℕ
struct_size (type_def p name builtin extern size offset e fs) = size

unfoldable pub element_of : TypeDef → Element
element_of (type_def p name builtin extern size offset e fs) = e

unfoldable pub fields_of : TypeDef → Fields
fields_of (type_def p name builtin extern size offset e fs) = fs

-- A type with a primary type and a name alone.
abbrev basic : PrimaryType → Text → TypeDef
basic p name = type_def p name true false 0 0 no_element no_fields

abbrev pub bool_type : TypeDef
bool_type = basic Types.typ_bool (codes "Bool")

abbrev pub none_type : TypeDef
none_type = basic Types.typ_none (codes "None")

abbrev pub ptr_type : TypeDef
ptr_type = basic Types.typ_ptr (codes "Ptr")

abbrev pub i32_type : TypeDef
i32_type = basic Types.typ_i32 (codes "I32")

abbrev pub u32_type : TypeDef
u32_type = basic Types.typ_u32 (codes "U32")

abbrev pub i16_type : TypeDef
i16_type = basic Types.typ_i16 (codes "I16")

abbrev pub u16_type : TypeDef
u16_type = basic Types.typ_u16 (codes "U16")

abbrev pub u8_type : TypeDef
u8_type = basic Types.typ_u8 (codes "U8")

abbrev pub i64_type : TypeDef
i64_type = basic Types.typ_i64 (codes "I64")

abbrev pub u64_type : TypeDef
u64_type = basic Types.typ_u64 (codes "U64")

abbrev pub f64_type : TypeDef
f64_type = basic Types.typ_f64 (codes "F64")

abbrev pub f32_type : TypeDef
f32_type = basic Types.typ_f32 (codes "F32")

abbrev pub any_type : TypeDef
any_type = basic Types.typ_none (codes "Any")

abbrev pub string_type : TypeDef
string_type = type_def Types.typ_string (codes "String") true false 0 8 (element u8_type) no_fields

abbrev pub slice_type : TypeDef
slice_type = type_def Types.typ_slice (codes "Slice") true false 0 8 (element string_type) no_fields

abbrev pub struct_type : TypeDef
struct_type = type_def Types.typ_struct (codes "Struct") true false 0 0 (element any_type) no_fields

-- `TypeDefs` is a map: the first entry with the key counts.
abbrev pub TypeTable : Type 0
TypeTable = List (Text × TypeDef)

unfoldable pub find_type : Text → TypeTable → Option TypeDef
find_type k [] = none
find_type k ((j, t) ∷ m) = if text_eq j k then some t else find_type k m

-- `AddType`
unfoldable pub add_type : Text → TypeDef → TypeTable → TypeTable
add_type k t [] = (k, t) ∷ []
add_type k t ((j, u) ∷ m) = if text_eq j k then (k, t) ∷ m else (j, u) ∷ add_type k t m

-- The loop variable `t` of `InitTypes`, from `TYP_NONE` up to `TYP_COUNT`.
abbrev all_types : List PrimaryType
all_types =
    Types.typ_none ∷ Types.typ_bool ∷ Types.typ_u8 ∷ Types.typ_i16 ∷ Types.typ_u16 ∷ Types.typ_i32
    ∷ Types.typ_u32 ∷ Types.typ_rune ∷ Types.typ_i64 ∷ Types.typ_u64 ∷ Types.typ_f32 ∷ Types.typ_f64
    ∷ Types.typ_string ∷ Types.typ_struct ∷ Types.typ_func ∷ Types.typ_map ∷ Types.typ_set
    ∷ Types.typ_ptr ∷ Types.typ_error ∷ Types.typ_slice ∷ []

-- The entry that the loop makes, with the data offset that "String" gets behind it.
unfoldable pub init_type : PrimaryType → Text × TypeDef
unfolding type_name type_eq
init_type p = (
  type_name p,
  type_def p (type_name p) true false 0 (if type_eq p Types.typ_string then 8 else 0) no_element
      no_fields,
)

abbrev array_type : Text → TypeDef → Text × TypeDef
array_type name t = (name, type_def Types.typ_slice name true false 0 8 (element t) no_fields)

-- `InitTypes`
unfoldable pub init_types : TypeTable
unfolding init_type
init_types =
    map init_type all_types
    ++ (array_type (codes "U64arr") u64_type
        ∷ array_type (codes "I64arr") i64_type
        ∷ array_type (codes "I32arr") i32_type
        ∷ array_type (codes "U32arr") u32_type
        ∷ array_type (codes "U8arr") u8_type
        ∷ array_type (codes "F64arr") f64_type
        ∷ array_type (codes "F32arr") f32_type
        ∷ array_type (codes "StringArr") string_type
        ∷ [])

-- `(t *TypeDef) Size()`
unfoldable pub size : TypeDef → ℕ
unfolding type_size type_eq pt struct_size
size t = if type_eq (pt t) Types.typ_struct then struct_size t else type_size (pt t)
