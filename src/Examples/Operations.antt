-- ===== src/Examples/Operations.antt =====
-- The theorems on operations and on the code of strings, at concrete inputs.
use jkvlang.Prelude.{
  ◌+◌, ◌-◌, ◌%◌, ◌≡◌, refl, inr, true, false, [], ◌∷◌, Text, codes, none, some, arith,
}
use jkvlang.Prelude.Outcomes.{panic, Ends, Returns}
use jkvlang.Prelude.Int.{pos, negsuc, ◌*ℤ◌}
use jkvlang.Token.Kind
use jkvlang.Code.Types.{is_integer, type_index, type_eq}
use jkvlang.Code.Asm
use jkvlang.Code.Asm.{Asm}
use jkvlang.TypeDefs.Defs.{pt, builtin, i16_type, u16_type, i32_type, string_type}
use jkvlang.TypeDefs.Assign.{contains, has_prefix, str_to_const}
use jkvlang.Values.Defs.{ValueDef, value_of}
use jkvlang.Emit.Strings.{emit_compare_strings_eq, emit_compare_strings_ne}
use jkvlang.Emit.Concat.{emit_concat}
use jkvlang.Emit.Balance.{Moved, string_ops-Moved}
use jkvlang.Operators.Folding.{type_from_const_value, generate_const_op_const}
use jkvlang.Operators.Integers.{HasText, generate_const_op_const-int_meaning}
use jkvlang.Operators.Types.{
  HasType, IsTyped, type_given, wider, generate_const_op_const-type,
  generate_const_op_const-negative, generate_const_op_const-by_zero,
}
use jkvlang.Operators.Generate.{generate_op}
use jkvlang.Operators.Refines.{IsOf, generate_op-Computes}
use jkvlang.Operators.Constants.{generate_op-Changes}
use jkvlang.Emit.Machine.{word, to_word}
use jkvlang.Emit.Correct.{Computes}
use jkvlang.Emit.Consts.{Changes}
use jkvlang.Emit.Floats.{Gen}
use jkvlang.Examples.Go.{int_floats, int_floats-ComputesIntegers}

-- A constant without a type.
abbrev pub constant : Text → ValueDef
constant s = record (value_of none) { is_const = true; string_value = s }

abbrev pub in_rax : Asm
in_rax = record {
  state = Asm.ax;
  label_no = 0;
  local_sp = pos 1;
  next_line_num = 1;
  line_num = 1;
  output = [];
  arg_code = [];
  cleanup_code = [];
  no_code = 0;
}

string_ops-Moved_example :
    Returns (Moved (negsuc 0) in_rax) (emit_concat true false in_rax)
    × Returns (Moved (negsuc 0) in_rax) (emit_compare_strings_eq true false in_rax)
    × Returns (Moved (negsuc 0) in_rax) (emit_compare_strings_ne true false in_rax)
string_ops-Moved_example = string_ops-Moved true false in_rax refl

generate_const_op_const-int_meaning_example :
    Returns
      (λ o. (o.failed ≡ false) × HasText (codes "42") o.value)
      (generate_const_op_const int_floats Kind.tok_mult
        (constant (codes "6"))
        (constant (codes "7")))
unfolding str_to_const type_from_const_value contains has_prefix is_integer type_eq type_index pt
    ◌*ℤ◌
generate_const_op_const-int_meaning_example =
    generate_const_op_const-int_meaning int_floats int_floats-ComputesIntegers Kind.tok_mult
      (constant (codes "6")) (constant (codes "7")) i32_type i32_type (pos 6) (pos 7) (pos 42) refl
      refl refl refl refl refl (omega arith, omega arith) (omega arith, omega arith)
      (omega arith, omega arith) refl (inr (refl, refl))

generate_const_op_const-type_example :
    Ends
      (IsTyped (type_given Kind.tok_lt (wider i32_type i32_type)))
      (generate_const_op_const int_floats Kind.tok_lt (constant (codes "6")) (constant (codes "7")))
unfolding str_to_const type_from_const_value contains has_prefix
generate_const_op_const-type_example =
    generate_const_op_const-type int_floats Kind.tok_lt (constant (codes "6"))
      (constant (codes "7")) i32_type i32_type (pos 6) refl refl refl

generate_const_op_const-negative_example :
    Returns
      (λ o. (o.failed ≡ false) × HasType string_type o.value)
      (generate_const_op_const int_floats Kind.tok_plus
        (constant (codes "-5"))
        (constant (codes "1")))
unfolding str_to_const type_from_const_value contains has_prefix type_index pt
generate_const_op_const-negative_example =
    generate_const_op_const-negative int_floats Kind.tok_plus (constant (codes "-5"))
      (constant (codes "1")) (53 ∷ []) i32_type (negsuc 4) refl refl refl refl refl (omega arith)

generate_const_op_const-by_zero_example :
    generate_const_op_const int_floats Kind.tok_div (constant (codes "6")) (constant (codes "0"))
    ≡ panic
unfolding str_to_const type_from_const_value contains has_prefix is_integer type_eq type_index pt
generate_const_op_const-by_zero_example =
    generate_const_op_const-by_zero int_floats Kind.tok_div (constant (codes "6"))
      (constant (codes "0")) i32_type i32_type (pos 6) refl refl refl refl refl refl refl refl

abbrev entry : ValueDef
entry = value_of (some i16_type)

abbrev five : ValueDef
five = record (value_of (some i32_type)) { is_const = true; string_value = codes "5" }

abbrev pub state : Gen int_floats.F
state = record {
  asm = in_rax;
  lits = record {
    string_literal_defs = [];
    f64_literal_defs = [];
    f32_literal_defs = [];
    slice_literal_defs = [];
  };
}

generate_op-Computes_example :
    Returns
      (λ r.
        (r.0.failed ≡ false)
        × IsOf i16_type r.0.value
        × Computes state.asm 9 7 ((9 + (word - 7)) % word) r.1.asm)
      (generate_op int_floats
        (λ t u. false)
        Kind.tok_minus
        (value_of (some i16_type))
        (value_of (some u16_type))
        state)
unfolding builtin is_integer type_eq type_index pt
generate_op-Computes_example =
    generate_op-Computes int_floats (λ t u. false) Kind.tok_minus (λ x y. (x + (word - y)) % word)
      (value_of (some i16_type)) (value_of (some u16_type)) i16_type u16_type state 9 7 refl refl
      refl refl refl refl refl refl refl refl (omega arith) (omega arith)

generate_op-Changes_example :
    Returns
      (λ r.
        (r.0.failed ≡ false)
        × IsOf i16_type r.0.value
        × Changes state.asm 7 ((7 + (word - to_word (pos 5))) % word) r.1.asm)
      (generate_op int_floats (λ t u. false) Kind.tok_minus entry five state)
    × Returns
        (λ r.
          (r.0.failed ≡ false)
          × IsOf i16_type r.0.value
          × Changes state.asm 7 ((to_word (pos 5) + (word - 7)) % word) r.1.asm)
        (generate_op int_floats (λ t u. false) Kind.tok_minus five entry state)
unfolding builtin is_integer type_eq type_index pt str_to_const contains has_prefix
generate_op-Changes_example =
    generate_op-Changes int_floats (λ t u. false) int_floats-ComputesIntegers Kind.tok_minus
      (λ x y. (x + (word - y)) % word) entry five i16_type i32_type state 7 (pos 5) refl refl refl
      refl refl refl refl refl refl refl refl (omega arith) refl refl (omega arith)
