-- ===== src/Code/Types.antt =====
-- code/code.go: the primary types with their names, sizes and classes.
use jkvlang.Prelude.{ℕ, Bool, ◌||◌, Text, codes, ◌==◌}

pub data PrimaryType : Type 0 where
  typ_none typ_bool typ_u8 typ_i16 typ_u16 typ_i32 typ_u32 typ_rune typ_i64 typ_u64 typ_f32 :
      PrimaryType
  typ_f64 typ_string typ_struct typ_func typ_map typ_set typ_ptr typ_error typ_slice : PrimaryType
  typ_count : PrimaryType

-- The `iota` of each constant.
unfoldable pub type_index : PrimaryType → ℕ
type_index typ_none = 0
type_index typ_bool = 1
type_index typ_u8 = 2
type_index typ_i16 = 3
type_index typ_u16 = 4
type_index typ_i32 = 5
type_index typ_u32 = 6
type_index typ_rune = 7
type_index typ_i64 = 8
type_index typ_u64 = 9
type_index typ_f32 = 10
type_index typ_f64 = 11
type_index typ_string = 12
type_index typ_struct = 13
type_index typ_func = 14
type_index typ_map = 15
type_index typ_set = 16
type_index typ_ptr = 17
type_index typ_error = 18
type_index typ_slice = 19
type_index typ_count = 20

-- `==` on primary types.
unfoldable pub type_eq : PrimaryType → PrimaryType → Bool
unfolding type_index
type_eq a b = type_index a == type_index b

-- `PrimaryTypeNames`, and `Name` which indexes it.
unfoldable pub type_name : PrimaryType → Text
type_name typ_none = codes "None"
type_name typ_bool = codes "Bool"
type_name typ_u8 = codes "U8"
type_name typ_i16 = codes "I16"
type_name typ_u16 = codes "U16"
type_name typ_i32 = codes "I32"
type_name typ_u32 = codes "U32"
type_name typ_rune = codes "Rune"
type_name typ_i64 = codes "I64"
type_name typ_u64 = codes "U64"
type_name typ_f32 = codes "F32"
type_name typ_f64 = codes "F64"
type_name typ_string = codes "String"
type_name typ_struct = codes "Struct"
type_name typ_func = codes "Func"
type_name typ_map = codes "Map"
type_name typ_set = codes "Set"
type_name typ_ptr = codes "Ptr"
type_name typ_error = codes "Error"
type_name typ_slice = codes "Slice"
type_name typ_count = codes "<unused>"

-- `PrimaryTypeSizes`, and `Size` which indexes it.
unfoldable pub type_size : PrimaryType → ℕ
type_size typ_none = 0
type_size typ_bool = 1
type_size typ_u8 = 1
type_size typ_i16 = 2
type_size typ_u16 = 2
type_size typ_i32 = 4
type_size typ_u32 = 4
type_size typ_rune = 4
type_size typ_i64 = 8
type_size typ_u64 = 8
type_size typ_f32 = 4
type_size typ_f64 = 8
type_size typ_string = 8
type_size typ_struct = 8
type_size typ_func = 8
type_size typ_map = 8
type_size typ_set = 8
type_size typ_ptr = 8
type_size typ_error = 8
type_size typ_slice = 8
type_size typ_count = 0

unfoldable pub is_object : PrimaryType → Bool
unfolding type_eq
is_object t = type_eq t typ_struct || type_eq t typ_string || type_eq t typ_map || type_eq t typ_set

unfoldable pub is_integer : PrimaryType → Bool
unfolding type_eq
is_integer t =
    type_eq t typ_i32
    || type_eq t typ_u32
    || type_eq t typ_u16
    || type_eq t typ_i16
    || type_eq t typ_u8
    || type_eq t typ_i64
    || type_eq t typ_u64

unfoldable pub is_unsigned : PrimaryType → Bool
unfolding type_eq
is_unsigned t = type_eq t typ_u32 || type_eq t typ_u16 || type_eq t typ_u8 || type_eq t typ_u64

unfoldable pub is_float : PrimaryType → Bool
unfolding type_eq
is_float t = type_eq t typ_f32 || type_eq t typ_f64

unfoldable pub is_number : PrimaryType → Bool
unfolding is_float is_integer
is_number t = is_float t || is_integer t
