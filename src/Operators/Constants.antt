-- ===== src/Operators/Constants.antt =====
-- `GenerateOp` on an integer in rax and a constant, on either side of the operator.
use mathlib.Core.Path.{subst}
use jkvlang.Prelude.{
  ℕ, ◌+◌, ◌-◌, ◌*◌, ◌%◌, ◌<◌, ◌≡◌, refl, sym, ap, ◌∙◌, Bool, true, false, ◌||◌, Option, none, some,
  arith,
}
use jkvlang.Prelude.Outcomes.{ok, Returns, Returns-bind, ◌>>=◌}
use jkvlang.Prelude.Int.{ℤ, pos, negsuc, ◌+ℤ◌, ltb_ℤ}
use jkvlang.Prelude.Int64.{wrap_int}
use jkvlang.Prelude.Floats.{Floats, ComputesIntegers, IsExact}
use jkvlang.Token.Kind
use jkvlang.Token.Kind.{Token, is_compare, is_arithmetic, token_eq, token_index}
use jkvlang.Code.Types.{is_integer}
use jkvlang.Code.Asm.{ax}
use jkvlang.TypeDefs.Defs.{TypeDef, pt, builtin}
use jkvlang.TypeDefs.Assign.{str_to_const}
use jkvlang.Values.Defs.{ValueDef, value_of}
use jkvlang.Emit.Ops.{inverse, emit_op_int_const}
use jkvlang.Emit.Machine.{word, to_word}
use jkvlang.Emit.Correct.{meaning}
use jkvlang.Emit.Consts.{Changes, const_meaning, IsSmall, emit_op_int_const-Changes}
use jkvlang.Emit.Balance.{in_rax}
use jkvlang.Emit.Floats.{Gen}
use jkvlang.Operators.Generate.{
  exchanged, generate_op, known_type, op_first, second_type, op_typed, dispatch, tos_op_const_typed,
  constant_typed, generate_tos_op_const, combine_constant,
}
use jkvlang.Operators.Refines.{IsOf, return-lift}

small_sum : (z : ℤ) → IsSmall z → wrap_int (z +ℤ pos 0) ≡ z
unfolding ◌+ℤ◌
small_sum (pos n) h = ground arith
small_sum (negsuc n) h = ground arith

small_fits :
    (z : ℤ) → IsSmall z → (ltb_ℤ (pos 0x7FFF_FFFF) z || ltb_ℤ z (negsuc 0x7FFF_FFFE)) ≡ false
small_fits (pos n) h = ground arith
small_fits (negsuc n) h = ground arith

small-IsExact : (z : ℤ) → IsSmall z → IsExact z
small-IsExact (pos n) h = (omega arith, omega arith)
small-IsExact (negsuc n) h = (omega arith, omega arith)

-- An operation with a meaning for a constant on its right is arithmetic.
const_op :
    (op : Token) (f : ℕ → ℕ → ℕ)
    → const_meaning op ≡ some f
    → (is_compare op ≡ false) × (is_arithmetic op ≡ true)
unfolding is_compare is_arithmetic token_eq token_index
const_op Kind.tok_plus f h = (refl, refl)
const_op Kind.tok_minus f h = (refl, refl)
const_op Kind.tok_inv_minus f h = (refl, refl)
const_op Kind.tok_mult f h = (refl, refl)
const_op _ f h = cc

-- The meaning with the constant on the right, and that of the inverse with it on the left.
on_the_right : (op : Token) (f : ℕ → ℕ → ℕ) → meaning op ≡ some f → const_meaning op ≡ some f
on_the_right Kind.tok_plus f h = h
on_the_right Kind.tok_minus f h = h
on_the_right Kind.tok_mult f h = h
on_the_right _ f h = cc

abbrev function_of : Option (ℕ → ℕ → ℕ) → ℕ → ℕ → ℕ
function_of none = λ x y. 0
function_of (some f) = f

on_the_left :
    (op : Token) (f : ℕ → ℕ → ℕ)
    → meaning op ≡ some f
    → (g : ℕ → ℕ → ℕ) × (const_meaning (inverse op) ≡ some g) × ((y z : ℕ) → g y z ≡ f z y)
unfolding inverse
on_the_left Kind.tok_plus f h =
    ((λ y z. (y + z) % word), refl, (λ y z. ground arith ∙ ap (λ k. function_of k z y) h))
on_the_left Kind.tok_minus f h =
    ((λ y z. (z + (word - y)) % word), refl, (λ y z. ap (λ k. function_of k z y) h))
on_the_left Kind.tok_mult f h =
    ((λ y z. y * z % word), refl, (λ y z. ground arith ∙ ap (λ k. function_of k z y) h))
on_the_left _ f h = cc

module _ (fl : Floats) (laws : ComputesIntegers fl) where
  -- The number that the code of the constant gets.
  small_constant :
      (z : ℤ) → IsSmall z → wrap_int (fl.to_int (fl.of_int z) +ℤ fl.to_int (fl.of_int (pos 0))) ≡ z
  small_constant z h =
      rw
        (
          laws.to_int_of_int z (small-IsExact z h),
          laws.to_int_of_int (pos 0) (omega arith, omega arith),
        )
        (small_sum z h)

  constant-Changes :
      (op : Token) (f : ℕ → ℕ → ℕ) (v w : ValueDef) (t u : TypeDef) (g : Gen fl.F) (y : ℕ) (z : ℤ)
      → const_meaning op ≡ some f
      → is_integer (pt t) ≡ true
      → is_integer (pt u) ≡ true
      → v.is_const ≡ false
      → str_to_const fl v.string_value ≡ none
      → str_to_const fl w.string_value ≡ some (fl.of_int z)
      → IsSmall z
      → g.asm.state ≡ ax
      → g.asm.no_code ≡ 0
      → y < word
      → Returns
          (λ r. (r.0.failed ≡ false) × IsOf t r.0.value × Changes g.asm y (f y (to_word z)) r.1.asm)
          (generate_tos_op_const fl op (record v { typ = some t }) (record w { typ = some u }) g)
  unfolding generate_tos_op_const tos_op_const_typed constant_typed combine_constant known_type
  constant-Changes op f v w t u g y z m it iu cv tv tw small st nc ly =
      rw
        (
          cv,
          tv,
          tw,
          (const_op op f m).0,
          (const_op op f m).1,
          it,
          iu,
          small_constant z small,
          small_fits z small,
        )
        (return-lift _ (record v { typ = some t; is_const = false }) (record w { typ = some u })
          (some (value_of (some t))) (Changes g.asm y (f y (to_word z))) (emit_op_int_const op z) g
          (emit_op_int_const-Changes op f z g.asm y m small st nc ly) (λ b h. (refl, refl, h)))

module _ (fl : Floats) (same : TypeDef → TypeDef → Bool) where
  right_case :
      (op : Token) (v w : ValueDef) (t u : TypeDef) (g : Gen fl.F)
      → v.typ ≡ some t
      → w.typ ≡ some u
      → builtin t ≡ true
      → v.is_const ≡ false
      → w.is_const ≡ true
      → g.asm.state ≡ ax
      → generate_op fl same op v w g
        ≡ generate_tos_op_const fl op (record v { typ = some t }) (record w { typ = some u }) g
  unfolding generate_op known_type op_first second_type op_typed dispatch
  right_case op v w t u g tv tw bt cv cw st = rw (tv, tw, bt, cv, cw, in_rax g.asm st) refl

  left_case :
      (op : Token) (v w : ValueDef) (t u : TypeDef) (g : Gen fl.F)
      → v.typ ≡ some t
      → w.typ ≡ some u
      → builtin u ≡ true
      → v.is_const ≡ false
      → w.is_const ≡ true
      → g.asm.state ≡ ax
      → generate_op fl same op w v g ≡ (
          generate_tos_op_const fl
            (inverse op)
            (record v { typ = some t })
            (record w { typ = some u })
            g
          >>= λ r. ok (exchanged r.0, r.1))
  unfolding generate_op known_type op_first second_type op_typed dispatch
  left_case op v w t u g tv tw bu cv cw st = rw (tv, tw, bu, cv, cw, in_rax g.asm st) refl

  -- If the floats compute exact integers as Go's do: with an integer of a known built-in type in rax
  -- and a small integer constant of a known built-in type, and code generation on, `GenerateOp`
  -- returns for + - *, with the constant on the right or on the left, a value of the type of the other
  -- operand without an error, and its code computes the operation modulo 2 ^ 64 with the operands in
  -- the order of the source. The type of the constant does not matter, where the comment of
  -- `GenerateOp` has the operands promoted.
  pub generate_op-Changes :
      (laws : ComputesIntegers fl) (op : Token) (f : ℕ → ℕ → ℕ) (v w : ValueDef) (t u : TypeDef)
      (g : Gen fl.F) (y : ℕ) (z : ℤ)
      → meaning op ≡ some f
      → v.typ ≡ some t
      → w.typ ≡ some u
      → builtin t ≡ true
      → builtin u ≡ true
      → is_integer (pt t) ≡ true
      → is_integer (pt u) ≡ true
      → v.is_const ≡ false
      → w.is_const ≡ true
      → str_to_const fl v.string_value ≡ none
      → str_to_const fl w.string_value ≡ some (fl.of_int z)
      → IsSmall z
      → g.asm.state ≡ ax
      → g.asm.no_code ≡ 0
      → y < word
      → Returns
          (λ r. (r.0.failed ≡ false) × IsOf t r.0.value × Changes g.asm y (f y (to_word z)) r.1.asm)
          (generate_op fl same op v w g)
        × Returns
            (λ r.
              (r.0.failed ≡ false) × IsOf t r.0.value × Changes g.asm y (f (to_word z) y) r.1.asm)
            (generate_op fl same op w v g)
  generate_op-Changes laws op f v w t u g y z m tv tw bt bu it iu cv cw nv nw small st nc ly =
      let (h, mh, eh) = on_the_left op f m in
      (
        subst (Returns _) (sym (right_case op v w t u g tv tw bt cv cw st)) (
            constant-Changes fl laws op f v w t u g y z (on_the_right op f m) it iu cv nv nw small
              st nc ly),
        subst (Returns _) (sym (left_case op v w t u g tv tw bu cv cw st)) (
            Returns-bind _ _
              (generate_tos_op_const fl (inverse op) (record v { typ = some t })
                (record w { typ = some u }) g)
              (λ r. ok (exchanged r.0, r.1))
              (constant-Changes fl laws (inverse op) h v w t u g y z mh it iu cv nv nw small st nc
                ly)
              (λ r k. (k.0, k.1, subst (λ n. Changes g.asm y n r.1.asm) (eh y (to_word z)) k.2))),
      )
