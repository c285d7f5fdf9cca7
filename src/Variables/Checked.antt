-- ===== src/Variables/Checked.antt =====
-- `GenerateAssignment`: what it refuses, and what its code does to a variable of 64 bits.
use mathlib.Core.Path.{subst}
use jkvlang.Prelude.{ℕ, ◌≡◌, refl, sym, ◌∙◌, Bool, true, false, ◌&&◌, some}
use jkvlang.Prelude.Outcomes.{ok, Returns, Returns-bind, ◌>>=◌}
use jkvlang.Prelude.Int.{ℤ, pos, leb_ℤ}
use jkvlang.Prelude.Floats.{Floats, ReadsIntegers, IsExact}
use jkvlang.Token.Kind.{Token}
use jkvlang.Code.Types
use jkvlang.Code.Types.{type_eq, type_index, type_size, is_integer}
use jkvlang.Code.Lines.{bp_rel}
use jkvlang.Code.Asm.{Asm, ax, set_sp}
use jkvlang.TypeDefs.Defs.{TypeDef, pt, i64_type}
use jkvlang.TypeDefs.Assign.{str_to_const, can_assign}
use jkvlang.TypeDefs.Assign.Laws.{const_range, can_assign-const_range}
use jkvlang.Values.Defs.{ValueDef}
use jkvlang.Emit.Instr.{bp_relative}
use jkvlang.Emit.Floats.{Gen, lift}
use jkvlang.Emit.AssignInts.{emit_assign_variable_expression_int}
use jkvlang.Emit.Stores.{Stores, assign_meaning, emit_assign_variable_expression_int-Stores}
use jkvlang.Variables.Defs.{VarDef}
use jkvlang.Variables.Expressions.{assign_variable_expression}
use jkvlang.Variables.Assign.{generate_assignment, dispatch}

int64_expression :
    (op : Token) (l : VarDef) (q : Types.PrimaryType) (a : Asm)
    → assign_variable_expression op l i64_type q false a
      ≡ emit_assign_variable_expression_int op (pos 8) l.offset a
unfolding assign_variable_expression type_eq type_index type_size is_integer pt
int64_expression op l q a = refl

module _ (fl : Floats) where
  refused :
      (op : Token) (l : VarDef) (v : ValueDef) (t u : TypeDef) (g : Gen fl.F)
      → l.typ ≡ some t
      → v.typ ≡ some u
      → can_assign fl (pt t) (pt u) v ≡ false
      → Returns (λ r. (r.failed ≡ true) × (r.gen ≡ g)) (generate_assignment fl op l v g)
  unfolding generate_assignment
  refused op l v t u g tl tv bad = rw (tl, tv, bad) (refl, refl)

  -- If the floats order the integers of at most 53 bits as they are, `GenerateAssignment` of a
  -- constant of another type that stands for such an integer to a variable of an integer type of at
  -- most 32 bits returns an error for every operator, and writes nothing, when the integer lies
  -- outside of the range of `const_range`.
  pub generate_assignment-refuses :
      (laws : ReadsIntegers fl) (op : Token) (l : VarDef) (v : ValueDef) (t u : TypeDef)
      (g : Gen fl.F) (z lo hi : ℤ)
      → l.typ ≡ some t
      → v.typ ≡ some u
      → type_eq (pt u) (pt t) ≡ false
      → v.is_const ≡ true
      → str_to_const fl v.string_value ≡ some (fl.of_int z)
      → IsExact z
      → const_range (pt t) ≡ some (lo, hi)
      → (leb_ℤ lo z && leb_ℤ z hi) ≡ false
      → Returns (λ r. (r.failed ≡ true) × (r.gen ≡ g)) (generate_assignment fl op l v g)
  generate_assignment-refuses laws op l v t u g z lo hi tl tv ne const read exact range out =
      refused op l v t u g tl tv
        (can_assign-const_range fl laws (pt t) (pt u) v z lo hi ne const read exact range ∙ out)

  -- An expression that can be assigned to a local I64 variable with an offset that `BpRel` takes is
  -- assigned by `GenerateAssignment` without an error for = += -= *=, with code generation on and
  -- the value in rax; the code changes the variable, modulo 2 ^ 64, as the operator means, and no
  -- other.
  pub generate_assignment-Stores :
      (op : Token) (f : ℕ → ℕ → ℕ) (l : VarDef) (v : ValueDef) (u : TypeDef) (g : Gen fl.F) (y : ℕ)
      → assign_meaning op ≡ some f
      → l.typ ≡ some i64_type
      → v.typ ≡ some u
      → can_assign fl Types.typ_i64 (pt u) v ≡ true
      → l.is_indirect ≡ false
      → v.is_const ≡ false
      → bp_relative l.offset ≡ ok (bp_rel l.offset)
      → g.asm.state ≡ ax
      → g.asm.no_code ≡ 0
      → Returns
          (λ r. (r.failed ≡ false) × Stores g.asm l.offset f y r.gen.asm)
          (generate_assignment fl op l v g)
  unfolding generate_assignment dispatch set_sp pt
  generate_assignment-Stores op f l v u g y m tl tv can ni nc p st on =
      let l' = record l { typ = some i64_type; is_indirect = false } in
      rw (tl, tv, can, ni, nc)
        (Returns-bind (λ s. (s.0 ≡ false) × Stores g.asm l.offset f y s.1.asm) _
          (lift (assign_variable_expression op l' i64_type (pt u) false) g >>= λ r.
            ok (r.0, record (r.1) { asm = set_sp (r.1.asm) }))
          _
          (Returns-bind (λ s. (s.0 ≡ false) × Stores g.asm l.offset f y s.1.asm)
            (λ (s : Bool × Gen fl.F). (s.0 ≡ false) × Stores g.asm l.offset f y s.1.asm)
            (lift (assign_variable_expression op l' i64_type (pt u) false) g)
            (λ r. ok (r.0, record (r.1) { asm = set_sp (r.1.asm) }))
            (Returns-bind (λ s. (s.0 ≡ false) × Stores g.asm l.offset f y s.1)
              (λ (s : Bool × Gen fl.F). (s.0 ≡ false) × Stores g.asm l.offset f y s.1.asm)
              (assign_variable_expression op l' i64_type (pt u) false g.asm)
              (λ r. ok (r.0, record g { asm = r.1 }))
              (subst (Returns _) (sym (int64_expression op l' (pt u) g.asm))
                (emit_assign_variable_expression_int-Stores op f g.asm l.offset y m p st on))
              (λ r k. k))
            (λ r k. k))
          (λ r k. k))
