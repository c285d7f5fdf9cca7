-- ===== src/Operators/Integers.antt =====
-- Folding of integer constants, measured by the arithmetic of integers.
use mathlib.Core.Path.{subst}
use jkvlang.Prelude.{
  ◌≡◌, refl, sym, ap, ◌∙◌, true, false, Bool-cases, inl, inr, Text, Option, none, some, ltb,
}
use jkvlang.Prelude.Outcomes.{ok, Returns, Returns-bind}
use jkvlang.Prelude.Int.{ℤ, ◌+ℤ◌, ◌-ℤ◌, ◌*ℤ◌}
use jkvlang.Prelude.Int64.{quotient, remainder, int_and, int_and_not, int_or, int_xor}
use jkvlang.Prelude.Floats.{Floats, ComputesIntegers, IsExact, NoMinusZero}
use jkvlang.Token.Kind
use jkvlang.Token.Kind.{Token}
use jkvlang.Code.Types.{is_integer, type_index}
use jkvlang.TypeDefs.Defs.{TypeDef, pt}
use jkvlang.TypeDefs.Assign.{str_to_const}
use jkvlang.Values.Defs.{ValueDef, value_of, widest}
use jkvlang.Operators.Folding.{type_from_const_value, fold_with, folded, generate_const_op_const}

-- What the operations mean on integers; division rounds to zero, and none by zero.
abbrev pub int_meaning : Token → ℤ → ℤ → Option ℤ
int_meaning Kind.tok_plus m n = some (m +ℤ n)
int_meaning Kind.tok_minus m n = some (m -ℤ n)
int_meaning Kind.tok_mult m n = some (m *ℤ n)
int_meaning Kind.tok_div m n = quotient m n
int_meaning Kind.tok_mod m n = remainder m n
int_meaning Kind.tok_and m n = some (int_and m n)
int_meaning Kind.tok_and_not m n = some (int_and_not m n)
int_meaning Kind.tok_or m n = some (int_or m n)
int_meaning Kind.tok_xor m n = some (int_xor m n)
int_meaning _ m n = none

-- A product is no negative zero.
abbrev pub KeepsZero : Token → ℤ → ℤ → Type 0
KeepsZero Kind.tok_mult m n = NoMinusZero m n
KeepsZero op m n = Unit

-- A value with that text.
abbrev pub HasText : Text → Option ValueDef → Type 0
HasText s none = ⊥
HasText s (some r) = r.string_value ≡ s

abbrev the : ℤ → Option ℤ → ℤ
the z none = z
the z (some x) = x

some_eq : (x r : ℤ) → some x ≡ some r → x ≡ r
some_eq x r h = ap (the x) h

pub wide_integer :
    (v w : ValueDef × TypeDef)
    → is_integer (pt v.1) ≡ true
    → is_integer (pt w.1) ≡ true
    → is_integer (pt (widest v w).1) ≡ true
unfolding widest
wide_integer v w h k = elim (Bool-cases (ltb (type_index (pt w.1)) (type_index (pt v.1)))) [
  | inl e ↦ rw e h
  | inr e ↦ rw e k
]

module _ (fl : Floats) (laws : ComputesIntegers fl) where
  open fl use {of_int, format, format_int, plus, minus, times, to_int}

  -- The text of a number that is computed exactly.
  exact_text :
      (f : fl.F) (x r : ℤ) → f ≡ of_int x → some x ≡ some r → IsExact r → format f ≡ format_int r
  exact_text f x r e h k = ap format (e ∙ ap of_int (some_eq x r h)) ∙ laws.format_of_int r k

  module _ (m n r : ℤ) (em : IsExact m) (en : IsExact n) (er : IsExact r) where
    exact_sum : some (m +ℤ n) ≡ some r → format (plus (of_int m) (of_int n)) ≡ format_int r
    exact_sum h =
        exact_text _ (m +ℤ n) r
          (laws.plus_of_int m n em en (subst IsExact (sym (some_eq _ r h)) er)) h er

    exact_difference : some (m -ℤ n) ≡ some r → format (minus (of_int m) (of_int n)) ≡ format_int r
    exact_difference h =
        exact_text _ (m -ℤ n) r
          (laws.minus_of_int m n em en (subst IsExact (sym (some_eq _ r h)) er)) h er

    exact_product :
        some (m *ℤ n) ≡ some r
        → NoMinusZero m n
        → format (times (of_int m) (of_int n)) ≡ format_int r
    exact_product h z =
        exact_text _ (m *ℤ n) r
          (laws.times_of_int m n em en (subst IsExact (sym (some_eq _ r h)) er) z) h er

    fold_integers :
        (op : Token) (t : TypeDef) (v w b : ValueDef)
        → is_integer (pt t) ≡ true
        → int_meaning op m n ≡ some r
        → KeepsZero op m n
        → Returns (HasText (format_int r)) (fold_with fl op t v w (of_int m) (of_int n) b)
    unfolding fold_with
    fold_integers Kind.tok_plus t v w b i h z = exact_sum h
    fold_integers Kind.tok_minus t v w b i h z = exact_difference h
    fold_integers Kind.tok_mult t v w b i h z = exact_product h z
    fold_integers Kind.tok_div t v w b i h z =
        rw (i, laws.to_int_of_int m em, laws.to_int_of_int n en, h) refl
    fold_integers Kind.tok_mod t v w b i h z =
        rw (laws.to_int_of_int m em, laws.to_int_of_int n en, h) (laws.format_of_int r er)
    fold_integers Kind.tok_and t v w b i h z =
        rw (laws.to_int_of_int m em, laws.to_int_of_int n en) (exact_text _ _ r refl h er)
    fold_integers Kind.tok_and_not t v w b i h z =
        rw (laws.to_int_of_int m em, laws.to_int_of_int n en) (exact_text _ _ r refl h er)
    fold_integers Kind.tok_or t v w b i h z =
        rw (laws.to_int_of_int m em, laws.to_int_of_int n en) (exact_text _ _ r refl h er)
    fold_integers Kind.tok_xor t v w b i h z =
        rw (laws.to_int_of_int m em, laws.to_int_of_int n en) (exact_text _ _ r refl h er)
    fold_integers _ t v w b i h z = cc

  -- If sums, differences and products of exact integers are exact floats, but for the product of 0 and
  -- a negative number: two constants whose texts are read as exact integers and have an integer type
  -- are folded, for + - * / % & &^ | ^, without an error to the text of the integer that the
  -- operation means, where there is one and it is exact, and for * is not the product of 0 and a
  -- negative number.
  pub generate_const_op_const-int_meaning :
      (op : Token) (v w : ValueDef) (t u : TypeDef) (m n r : ℤ)
      → str_to_const fl v.string_value ≡ some (of_int m)
      → str_to_const fl w.string_value ≡ some (of_int n)
      → type_from_const_value fl v ≡ ok (some t)
      → type_from_const_value fl w ≡ ok (some u)
      → is_integer (pt t) ≡ true
      → is_integer (pt u) ≡ true
      → IsExact m
      → IsExact n
      → IsExact r
      → int_meaning op m n ≡ some r
      → KeepsZero op m n
      → Returns
          (λ o. (o.failed ≡ false) × HasText (format_int r) o.value)
          (generate_const_op_const fl op v w)
  unfolding generate_const_op_const
  generate_const_op_const-int_meaning op v w t u m n r hv hw tv tw it iu em en er h z =
      let v' = record v { typ = some t } in
      let w' = record w { typ = some u } in
      let wide = (widest (v', t) (w', u)).1 in
      rw (hv, hw, tv, tw)
        (Returns-bind (HasText (format_int r))
          (λ o. (o.failed ≡ false) × HasText (format_int r) o.value)
          (fold_with fl op wide v' w' (of_int m) (of_int n)
            (record (value_of (some wide)) { is_const = true }))
          _ (fold_integers m n r em en er op wide v' w' _ (wide_integer (v', t) (w', u) it iu) h z)
          (after_fold (format_int r) v' w'))
    where
      after_fold :
          (s : Text) (v w : ValueDef) (o : Option ValueDef)
          → HasText s o
          → Returns (λ p. (p.failed ≡ false) × HasText s p.value) (ok (folded fl v w o))
      after_fold s v w none h = absurd h
      after_fold s v w (some x) h = (refl, h)
