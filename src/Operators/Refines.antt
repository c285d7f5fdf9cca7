-- ===== src/Operators/Refines.antt =====
-- `GenerateOp` on integers: its code does the arithmetic of 64 bits.
use mathlib.Core.Path.{subst}
use jkvlang.Prelude.{ℕ, ◌<◌, ◌≡◌, refl, sym, Bool, true, false, Option, none, some}
use jkvlang.Prelude.Outcomes.{Outcome, Returns, Returns-bind}
use jkvlang.Prelude.Floats.{Floats}
use jkvlang.Token.Kind
use jkvlang.Token.Kind.{Token, is_compare, is_arithmetic, token_eq, token_index}
use jkvlang.Code.Types.{is_integer}
use jkvlang.Code.Asm.{Asm, ax}
use jkvlang.TypeDefs.Defs.{TypeDef, pt, builtin}
use jkvlang.Values.Defs.{ValueDef}
use jkvlang.Emit.Ops.{Failable, emit_integer_op}
use jkvlang.Emit.Machine.{word}
use jkvlang.Emit.Correct.{Computes, meaning, emit_integer_op-Computes}
use jkvlang.Emit.Balance.{in_rax}
use jkvlang.Emit.Floats.{Gen, lift, lift_ok}
use jkvlang.Operators.Folding.{Operation}
use jkvlang.Operators.Generate.{
  return_with, generate_op, known_type, op_first, second_type, op_typed, dispatch, tos_op_nos_typed,
  generate_tos_op_nos, combine_entries,
}

-- A value of that type.
abbrev pub IsOf : TypeDef → Option ValueDef → Type 0
IsOf t none = ⊥
IsOf t (some r) = r.typ ≡ some t

-- The operations that have a meaning are arithmetic and no comparison.
ring_op :
    (op : Token) (f : ℕ → ℕ → ℕ)
    → meaning op ≡ some f
    → (is_compare op ≡ false) × (is_arithmetic op ≡ true)
unfolding is_compare is_arithmetic token_eq token_index
ring_op Kind.tok_plus f h = (refl, refl)
ring_op Kind.tok_minus f h = (refl, refl)
ring_op Kind.tok_mult f h = (refl, refl)
ring_op _ f h = cc

-- What a return makes of code with and without an error.
module _ {F : Type 0} (Q : Operation × Gen F → Type 0) (v w : ValueDef) (r : Option ValueDef) where
  return-lift_ok :
      (P : Asm → Type 0) (m : Asm → Outcome Asm) (g : Gen F)
      → Returns P (m g.asm)
      → ((b : Asm)
          → P b
          → Q (record { value = r; failed = false; left = v; right = w }, record g { asm = b }))
      → Returns Q (return_with v w r (lift_ok m g))
  return-lift_ok P m g h k =
      Returns-bind (λ s. (s.0 ≡ false) × P (s.1.asm) × (s.1 ≡ record g { asm = s.1.asm })) Q
        (lift_ok m g) _ (Returns-bind P _ (m g.asm) _ h (λ b p. (refl, p, refl)))
        (λ s p. rw (p.0, p.2) (k s.1.asm p.1))

  pub return-lift :
      (P : Asm → Type 0) (m : Asm → Failable) (g : Gen F)
      → Returns (λ s. (s.0 ≡ false) × P s.1) (m g.asm)
      → ((b : Asm)
          → P b
          → Q (record { value = r; failed = false; left = v; right = w }, record g { asm = b }))
      → Returns Q (return_with v w r (lift m g))
  return-lift P m g h k =
      Returns-bind (λ s. (s.0 ≡ false) × P (s.1.asm) × (s.1 ≡ record g { asm = s.1.asm })) Q
        (lift m g) _
        (Returns-bind (λ s. (s.0 ≡ false) × P s.1) _ (m g.asm) _ h (λ b p. (p.0, p.1, refl)))
        (λ s p. rw (p.0, p.2) (k s.1.asm p.1))

-- An integer operation on the two entries is that of the emitter.
entries-Computes :
    {F : Type 0} (op : Token) (f : ℕ → ℕ → ℕ) (v w : ValueDef) (t u : TypeDef) (g : Gen F) (x y : ℕ)
    → meaning op ≡ some f
    → is_integer (pt t) ≡ true
    → is_integer (pt u) ≡ true
    → g.asm.state ≡ ax
    → g.asm.no_code ≡ 0
    → x < word
    → y < word
    → Returns
        (λ r. (r.0.failed ≡ false) × IsOf t r.0.value × Computes g.asm x y (f x y) r.1.asm)
        (generate_tos_op_nos op (record v { typ = some t }) (record w { typ = some u }) g)
unfolding generate_tos_op_nos tos_op_nos_typed combine_entries
entries-Computes op f v w t u g x y m it iu st nc lx ly =
    let v' = record v { typ = some t } in
    rw (in_rax g.asm st, (ring_op op f m).0, (ring_op op f m).1, it, iu)
      (return-lift_ok _ v' (record w { typ = some u }) (some v') (Computes g.asm x y (f x y))
        (emit_integer_op op) g (emit_integer_op-Computes op f g.asm x y m st nc lx ly)
        (λ b h. (refl, refl, h)))

module _ (fl : Floats) (same : TypeDef → TypeDef → Bool) where
  -- The case of two operands on the stack.
  entries_case :
      (op : Token) (v w : ValueDef) (t u : TypeDef) (g : Gen fl.F)
      → v.typ ≡ some t
      → w.typ ≡ some u
      → builtin t ≡ true
      → v.is_const ≡ false
      → w.is_const ≡ false
      → g.asm.state ≡ ax
      → generate_op fl same op v w g
        ≡ generate_tos_op_nos op (record v { typ = some t }) (record w { typ = some u }) g
  unfolding generate_op known_type op_first second_type op_typed dispatch
  entries_case op v w t u g tv tw bt cv cw st = rw (tv, tw, bt, cv, cw, in_rax g.asm st) refl

  -- With both operands integers of known types, the left one built-in, the right one in rax and the
  -- left one on the stack, and code generation on, `GenerateOp` returns for + - * a value of the left
  -- type without an error, and its code computes the operation modulo 2 ^ 64. The left type is the
  -- result's whatever the right type is, where the comment of `GenerateOp` has it promoted.
  pub generate_op-Computes :
      (op : Token) (f : ℕ → ℕ → ℕ) (v w : ValueDef) (t u : TypeDef) (g : Gen fl.F) (x y : ℕ)
      → meaning op ≡ some f
      → v.typ ≡ some t
      → w.typ ≡ some u
      → builtin t ≡ true
      → is_integer (pt t) ≡ true
      → is_integer (pt u) ≡ true
      → v.is_const ≡ false
      → w.is_const ≡ false
      → g.asm.state ≡ ax
      → g.asm.no_code ≡ 0
      → x < word
      → y < word
      → Returns
          (λ r. (r.0.failed ≡ false) × IsOf t r.0.value × Computes g.asm x y (f x y) r.1.asm)
          (generate_op fl same op v w g)
  generate_op-Computes op f v w t u g x y m tv tw bt it iu cv cw st nc lx ly =
      subst (Returns _) (sym (entries_case op v w t u g tv tw bt cv cw st))
        (entries-Computes op f v w t u g x y m it iu st nc lx ly)
