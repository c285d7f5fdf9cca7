-- ===== src/Variables/Assign.antt =====
-- expression.go: `GenerateAssignment`, and the assignments of constants to variables and through
-- pointers.
use jkvlang.Prelude.{
  ℕ, Bool, true, false, ◌&&◌, ◌||◌, Text, codes, text_eq, Option, none, some, ◌==◌, if◌then◌else◌,
}
use jkvlang.Prelude.Outcomes.{Outcome, ok, panic, ◌>>=◌}
use jkvlang.Prelude.Int.{ℤ, pos, negsuc}
use jkvlang.Prelude.Int64.{bits_of}
use jkvlang.Prelude.Floats.{Floats}
use jkvlang.Token.Kind.{Token}
use jkvlang.Code.Types
use jkvlang.Code.Types.{PrimaryType, type_eq, type_size, is_integer}
use jkvlang.Code.Asm.{Asm, set_sp}
use jkvlang.TypeDefs.Defs.{TypeDef, pt}
use jkvlang.TypeDefs.Assign.{str_to_const, can_assign}
use jkvlang.Values.Defs.{ValueDef}
use jkvlang.Emit.Ops.{Failable}
use jkvlang.Emit.Floats.{Gen, Generated, lift}
use jkvlang.Emit.Append.{
  emit_append_indirect_const_str_str, emit_append_variable_const_str_str,
  emit_append_indirect_const_str_char, emit_assign_variable_const_str_char,
}
use jkvlang.Emit.AssignObjects.{
  emit_assign_indirect_const_str_str, emit_assign_variable_const_str_str,
}
use jkvlang.Emit.AssignInts.{emit_assign_indirect_const_int, emit_assign_variable_const_int}
use jkvlang.Emit.AssignFloats.{
  emit_op_assign_indirect_const_f32, emit_op_assign_indirect_const_f64,
  emit_assign_variable_const_f64, emit_assign_variable_const_f32,
}
use jkvlang.Operators.Folding.{type_from_const_value}
use jkvlang.Variables.Defs.{VarDef}
use jkvlang.Variables.Expressions.{
  AssignOp, sets, appends, other, assign_op, is_sets, is_appends, both, assign_variable_expression,
  assign_indirect_expression,
}

abbrev string_const : AssignOp → ℤ → ℕ → Asm → Failable
string_const sets adr lit a = emit_assign_variable_const_str_str adr lit a
string_const appends adr lit a = emit_append_variable_const_str_str adr lit a
string_const other adr lit a = ok (true, a)

abbrev indirect_string_const : AssignOp → ℕ → Asm → Failable
indirect_string_const sets lit a = emit_assign_indirect_const_str_str lit a
indirect_string_const appends lit a = emit_append_indirect_const_str_str lit a
indirect_string_const other lit a = ok (true, a)

-- The texts of a Boolean constant that is false.
abbrev is_false_text : Text → Bool
is_false_text s = text_eq s (codes "false") || text_eq s (codes "0") || text_eq s (codes "nil")

-- A text that was parsed, or the error.
abbrev if_parsed : {A F : Type 0} → Option A → (A → Gen F → Generated F) → Gen F → Generated F
if_parsed none m g = ok (true, g)
if_parsed (some x) m g = m x g

module _ (fl : Floats) where
  open fl use {F, to_f32, to_int, parse_uint, parse_int, parse_float}

  -- The dispatch of `AssignVariableConst`, for a constant with the text `s`.
  unfoldable pub variable_const :
      Token → VarDef → PrimaryType → PrimaryType → ValueDef → Gen F → Generated F
  variable_const op lvalue p q v g =
      let adr = lvalue.offset in
      let s = v.string_value in
      let size = pos (type_size p) in
      if both Types.typ_string p q
      then lift (string_const (assign_op op) adr v.string_lit_no) g
      else if type_eq p Types.typ_u64
      then if_parsed (parse_uint s) (λ n. lift (emit_assign_variable_const_int op adr size n)) g
      else if type_eq p Types.typ_string && is_integer q && is_appends (assign_op op)
      then if_parsed (parse_int s) (λ z. lift (emit_assign_variable_const_str_char op adr z)) g
      else if is_integer p && is_integer q
      then if_parsed (parse_int s)
          (λ z. lift (emit_assign_variable_const_int op adr size (bits_of z))) g
      else if type_eq p Types.typ_f64
      then if_parsed (parse_float s) (λ f. emit_assign_variable_const_f64 fl op adr f) g
      else if type_eq p Types.typ_f32
      then if_parsed (parse_float s) (λ f. emit_assign_variable_const_f32 fl op adr (to_f32 f)) g
      else if type_eq p Types.typ_bool
      then lift (emit_assign_variable_const_int op adr size (if is_false_text s then 0 else 1)) g
      else ok (true, g)

  abbrev is_zero : ℤ → Bool
  is_zero (pos n) = n == 0
  is_zero (negsuc n) = false

  unfoldable pub assign_variable_const :
      Token → VarDef → PrimaryType → PrimaryType → ValueDef → Gen F → Generated F
  assign_variable_const op lvalue p q v g =
      if is_zero lvalue.offset then ok (true, g) else variable_const op lvalue p q v g

  -- The dispatch on a number of `AssignIndirectConst`.
  unfoldable pub indirect_number : Token → PrimaryType → PrimaryType → F → Gen F → Generated F
  indirect_number op p q f g =
      if type_eq p Types.typ_string && is_integer q && is_appends (assign_op op)
      then lift (emit_append_indirect_const_str_char (to_int f)) g
      else if is_integer p
      then lift (emit_assign_indirect_const_int op (pos (type_size p)) (to_int f)) g
      else if type_eq p Types.typ_f64
      then emit_op_assign_indirect_const_f64 fl op f g
      else if type_eq p Types.typ_f32
      then emit_op_assign_indirect_const_f32 fl op (to_f32 f) g
      else ok (true, g)

  unfoldable pub assign_indirect_const :
      Token → PrimaryType → PrimaryType → ValueDef → Gen F → Generated F
  assign_indirect_const op p q v g =
      if both Types.typ_string p q
      then lift (indirect_string_const (assign_op op) v.string_lit_no) g
      else if_parsed (str_to_const fl v.string_value) (indirect_number op p q) g

  -- The four cases of an assignment whose types fit; behind one of an expression to a variable the
  -- state of the stack is set.
  unfoldable pub dispatch :
      Token → VarDef → TypeDef → PrimaryType → ValueDef → Bool → Gen F → Generated F
  dispatch op lvalue t q v is_new g =
      if lvalue.is_indirect && v.is_const
      then assign_indirect_const op (pt t) q v g
      else if lvalue.is_indirect
      then lift (assign_indirect_expression op (pt t) q) g
      else if v.is_const
      then assign_variable_const op lvalue (pt t) q v g
      else (lift (assign_variable_expression op lvalue t q is_new) g >>= λ r.
          ok (r.0, record (r.1) { asm = set_sp (r.1.asm) }))

  -- What an assignment leaves: whether it failed, its two sides, whose types it may have set, and
  -- the state.
  pub record Assigned : Type 0 where
    pub failed : Bool
    pub lvalue : VarDef
    pub value : ValueDef
    pub gen : Gen F

  -- The two types are known, as a nil pointer is followed otherwise.
  abbrev with_types :
      Token → VarDef → ValueDef → Option TypeDef → Option TypeDef → Bool → Gen F → Outcome Assigned
  with_types op l v (some t) (some u) is_new g =
      let run = dispatch op l t (pt u) v is_new g in
      if can_assign fl (pt t) (pt u) v
      then (run >>= λ r. ok (record { failed = r.0; lvalue = l; value = v; gen = r.1 }))
      else ok (record { failed = true; lvalue = l; value = v; gen = g })
  with_types op l v t u is_new g = panic

  -- The type that a constant gets beside a new variable.
  abbrev inferred : Token → Option TypeDef → ValueDef → Outcome ValueDef
  inferred op (some t) v = ok v
  inferred op none v =
      let found = type_from_const_value fl v in
      elim (v.typ) [
        | some u ↦ ok v
        | none ↦ if is_sets (assign_op op) then (found >>= λ t. ok (record v { typ = t })) else ok v
      ]

  abbrev or_type : Option TypeDef → Option TypeDef → Option TypeDef
  or_type (some t) u = some t
  or_type none u = u

  abbrev is_nil : Option TypeDef → Bool
  is_nil none = true
  is_nil (some t) = false

  unfoldable pub generate_assignment : Token → VarDef → ValueDef → Gen F → Outcome Assigned
  generate_assignment op lvalue value g = inferred op lvalue.typ value >>= λ v.
      let t = or_type lvalue.typ v.typ in
      with_types op (record lvalue { typ = t }) v t v.typ (is_nil lvalue.typ) g
