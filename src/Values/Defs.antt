-- ===== src/Values/Defs.antt =====
-- values.go: `ValueDef` and its Boolean constants, and `widest`.
use jkvlang.Prelude.{
  ℕ, Bool, true, false, not, ◌&&◌, [], Text, codes, text_eq, Option, none, some, ltb, if◌then◌else◌,
}
use jkvlang.Code.Types.{type_index}
use jkvlang.TypeDefs.Defs.{TypeDef, pt, bool_type, none_type, ptr_type}

-- `Typ` may be nil; `localVar` is known by the variable's name.
pub record ValueDef : Type 0 where
  pub typ : Option TypeDef
  pub unsigned : Bool
  pub string_value : Text
  pub string_lit_no : ℕ
  pub is_returned : Bool
  pub is_temp_obj : Bool
  pub is_const : Bool
  pub is_indirect : Bool
  pub offset : ℕ
  pub local_var : Option Text

-- `&ValueDef{Typ: t}`
abbrev pub value_of : Option TypeDef → ValueDef
value_of t = record {
  typ = t;
  unsigned = false;
  string_value = [];
  string_lit_no = 0;
  is_returned = false;
  is_temp_obj = false;
  is_const = false;
  is_indirect = false;
  offset = 0;
  local_var = none;
}

abbrev pub false_value : ValueDef
false_value = record (value_of (some bool_type)) { is_const = true; string_value = codes "0" }

abbrev pub true_value : ValueDef
true_value = record (value_of (some bool_type)) { is_const = true; string_value = codes "1" }

abbrev pub no_value : ValueDef
no_value = record (value_of (some none_type)) { string_value = codes "0" }

abbrev pub ptr_value : ValueDef
ptr_value = value_of (some ptr_type)

unfoldable pub bool_value : ValueDef → Bool
bool_value v = not (text_eq v.string_value (codes "0"))

unfoldable pub set_bool_value : Bool → ValueDef → ValueDef
set_bool_value x v = record v { string_value = if x then codes "1" else codes "0" }

unfoldable pub has_value : ValueDef → Bool
has_value v = v.is_const

unfoldable pub is_true : ValueDef → Bool
unfolding bool_value
is_true v = v.is_const && bool_value v

unfoldable pub is_false : ValueDef → Bool
unfolding bool_value
is_false v = v.is_const && not (bool_value v)

-- `widest`, for values with a type.
unfoldable pub widest : ValueDef × TypeDef → ValueDef × TypeDef → ValueDef × TypeDef
unfolding type_index pt
widest v w = if ltb (type_index (pt w.1)) (type_index (pt v.1)) then v else w
