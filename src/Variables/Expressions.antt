-- ===== src/Variables/Expressions.antt =====
-- expression.go: the assignments of expressions to variables and through pointers.
use jkvlang.Prelude.{ℕ, Bool, true, false, ◌&&◌, if◌then◌else◌}
use jkvlang.Prelude.Outcomes.{ok, ◌>>=◌}
use jkvlang.Prelude.Int.{ℤ, pos}
use jkvlang.Token.Kind
use jkvlang.Token.Kind.{Token}
use jkvlang.Code.Types
use jkvlang.Code.Types.{PrimaryType, type_eq, type_size, is_integer}
use jkvlang.Code.Lines
use jkvlang.Code.Lines.{reg, blank, rdi}
use jkvlang.Code.Asm.{Asm}
use jkvlang.TypeDefs.Defs.{TypeDef, pt}
use jkvlang.Emit.Instr.{emit, emit_label, emit_assert_tos_in_rax}
use jkvlang.Emit.Ops.{Failable}
use jkvlang.Emit.Append.{
  emit_append_variable_expression_str_str, emit_append_indirect_expression_str_str,
  emit_append_indirect_expression_str_char, emit_append_variable_expression_str_char,
}
use jkvlang.Emit.AssignObjects.{
  emit_assign_indirect_expression_str_str, emit_assign_variable_expression_str_str,
  emit_assign_variable_expression_slice, emit_check_for_old_struct,
  emit_assign_variable_expression_struct, emit_assign_indirect_expression_slice,
  emit_assign_indirect_expression_struct,
}
use jkvlang.Emit.AssignInts.{
  emit_assign_variable_expression_int, emit_assign_indirect_expression_int,
}
use jkvlang.Emit.AssignFloats.{
  emit_assign_variable_expression_f64, emit_assign_variable_expression_f32,
  emit_assign_indirect_expression_f64, emit_assign_indirect_expression_f32,
}
use jkvlang.Variables.Defs.{VarDef}
use jkvlang.Variables.Free.{free_struct}

-- The operators that the dispatch tells apart.
pub data AssignOp : Type 0 where
  sets appends other : AssignOp

abbrev pub assign_op : Token → AssignOp
assign_op Kind.tok_assign = sets
assign_op Kind.tok_plus_assign = appends
assign_op op = other

abbrev pub is_sets : AssignOp → Bool
is_sets sets = true
is_sets k = false

abbrev pub is_appends : AssignOp → Bool
is_appends appends = true
is_appends k = false

abbrev pub both : PrimaryType → PrimaryType → PrimaryType → Bool
both t p q = type_eq p t && type_eq q t

abbrev after_free : ℕ → ℤ → Bool × Asm → Failable
after_free lbl adr (true, a) = ok (true, a)
after_free lbl adr (false, a) = emit_assign_variable_expression_struct adr (emit_label lbl a)

-- `AssignStruct`, for a variable of type `t`.
unfoldable pub assign_struct : VarDef → TypeDef → Bool → Asm → Failable
assign_struct lvalue t is_new a =
    let replaced = emit_check_for_old_struct lvalue.offset a >>= λ r.
    free_struct t r.1 >>= after_free r.0 lvalue.offset in
    let assigned = emit_assign_variable_expression_struct lvalue.offset a in
    if is_new then assigned else replaced

abbrev string_expression : AssignOp → ℤ → Asm → Failable
string_expression sets adr a = emit_assign_variable_expression_str_str adr a
string_expression appends adr a = emit_append_variable_expression_str_str adr a
string_expression other adr a = ok (true, a)

-- `AssignVariableExpression`, for a variable of type `t` and a value of the primary type `q`.
unfoldable pub assign_variable_expression :
    Token → VarDef → TypeDef → PrimaryType → Bool → Asm → Failable
assign_variable_expression op lvalue t q is_new a =
    let p = pt t in
    let adr = lvalue.offset in
    if both Types.typ_string p q
    then string_expression (assign_op op) adr a
    else if type_eq p Types.typ_string && is_integer q && is_appends (assign_op op)
    then emit_append_variable_expression_str_char adr a
    else if is_integer p
    then emit_assign_variable_expression_int op (pos (type_size p)) adr a
    else if type_eq p Types.typ_f64
    then emit_assign_variable_expression_f64 op adr a
    else if type_eq p Types.typ_f32
    then emit_assign_variable_expression_f32 op adr a
    else if both Types.typ_struct p q && is_sets (assign_op op)
    then assign_struct lvalue t is_new a
    else if both Types.typ_slice p q && is_sets (assign_op op)
    then emit_assign_variable_expression_slice adr a
    else if type_eq p Types.typ_bool
    then emit_assign_variable_expression_int op (pos (type_size p)) adr a
    else ok (true, a)

-- The dispatch of `AssignIndirectExpression`.
unfoldable pub indirect_expression : Token → PrimaryType → PrimaryType → Asm → Failable
indirect_expression op p q a =
    if type_eq q Types.typ_string && is_sets (assign_op op)
    then emit_assign_indirect_expression_str_str a
    else if both Types.typ_string p q && is_appends (assign_op op)
    then emit_append_indirect_expression_str_str a
    else if type_eq p Types.typ_string && is_integer q && is_appends (assign_op op)
    then emit_append_indirect_expression_str_char a
    else if is_integer p && is_integer q
    then emit_assign_indirect_expression_int op (pos (type_size p)) a
    else if type_eq q Types.typ_f64
    then emit_assign_indirect_expression_f64 op a
    else if type_eq q Types.typ_f32
    then emit_assign_indirect_expression_f32 op a
    else if is_sets (assign_op op) && both Types.typ_slice p q
    then emit_assign_indirect_expression_slice a
    else if is_sets (assign_op op) && both Types.typ_struct p q
    then emit_assign_indirect_expression_struct a
    else ok (true, a)

unfoldable pub assign_indirect_expression : Token → PrimaryType → PrimaryType → Asm → Failable
assign_indirect_expression op p q a =
    emit_assert_tos_in_rax a >>= emit Lines.op_pop (reg rdi) blank >>= indirect_expression op p q
