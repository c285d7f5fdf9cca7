-- ===== src/Operators/Types.antt =====
-- The types of folded constants, and the folding that stops the compiler.
use jkvlang.Prelude.{
  ℕ, ◌<◌, ◌≡◌, refl, sym, Bool, true, false, Bool-cases, ◌⊎◌, inl, inr, ◌∷◌, Text, codes, Option,
  none, some, ltb, lt→ltb, if◌then◌else◌,
}
use jkvlang.Prelude.Outcomes.{ok, panic, Ends, Ends-bind, Returns}
use jkvlang.Prelude.Int.{ℤ, pos}
use jkvlang.Prelude.Int64.{quotient, remainder, shift_left, shift_right}
use jkvlang.Prelude.Floats.{Floats}
use jkvlang.Token.Kind
use jkvlang.Token.Kind.{Token}
use jkvlang.Code.Types
use jkvlang.Code.Types.{is_integer, type_index}
use jkvlang.TypeDefs.Defs.{TypeDef, pt, bool_type, string_type}
use jkvlang.TypeDefs.Assign.{contains, str_to_const, or_zero}
use jkvlang.Values.Defs.{ValueDef, value_of, no_value, widest, set_bool_value}
use jkvlang.Operators.Folding.{
  Operation, type_from_const_value, fold_with, folded, integer, divided, shifted,
  generate_const_op_const,
}
use jkvlang.Operators.Integers.{wide_integer}

-- The comparisons and the logic operations.
abbrev pub gives_bool : Token → Bool
gives_bool Kind.tok_log_or = true
gives_bool Kind.tok_log_and = true
gives_bool Kind.tok_eq = true
gives_bool Kind.tok_ne = true
gives_bool Kind.tok_lt = true
gives_bool Kind.tok_le = true
gives_bool Kind.tok_gt = true
gives_bool Kind.tok_ge = true
gives_bool op = false

abbrev pub is_ring : Token → Bool
is_ring Kind.tok_plus = true
is_ring Kind.tok_minus = true
is_ring Kind.tok_mult = true
is_ring op = false

abbrev pub is_division : Token → Bool
is_division Kind.tok_div = true
is_division Kind.tok_mod = true
is_division op = false

-- A constant of that type.
abbrev pub HasType : TypeDef → Option ValueDef → Type 0
HasType t none = ⊥
HasType t (some r) = (r.typ ≡ some t) × (r.is_const ≡ true)

-- A constant of that type without an error, or `NoValue` with one.
abbrev pub IsTyped : TypeDef → Operation → Type 0
IsTyped t o =
    ((o.failed ≡ false) × HasType t o.value) ⊎ ((o.failed ≡ true) × (o.value ≡ some no_value))

abbrev pub type_given : Token → TypeDef → TypeDef
type_given op t = if gives_bool op then bool_type else t

-- The value of the switch, or none where the operation is refused.
abbrev IsSwitched : TypeDef → Option ValueDef → Type 0
IsSwitched t none = Unit
IsSwitched t (some r) = (r.typ ≡ some t) × (r.is_const ≡ true)

-- The type with the larger number of the two, and the second of two that are alike.
abbrev pub wider : TypeDef → TypeDef → TypeDef
wider t u = if ltb (type_index (pt u)) (type_index (pt t)) then t else u

wider_of : (v w : ValueDef) (t u : TypeDef) → (widest (v, t) (w, u)).1 ≡ wider t u
unfolding widest
wider_of v w t u = elim (Bool-cases (ltb (type_index (pt u)) (type_index (pt t)))) [
  | inl e ↦ rw e refl
  | inr e ↦ rw e refl
]

module _ (fl : Floats) where
  integer-type :
      (t : TypeDef) (r : ValueDef) (z : Option ℤ)
      → IsSwitched t (some r)
      → Ends (IsSwitched t) (integer fl z r)
  integer-type t r none h = tt
  integer-type t r (some z) h = h

  divided-type :
      (t : TypeDef) (r : ValueDef) (z : Option ℤ)
      → IsSwitched t (some r)
      → Ends (IsSwitched t) (divided fl z r)
  divided-type t r none h = tt
  divided-type t r (some z) h = h

  shifted-type :
      (t : TypeDef) (r : ValueDef) (z : Option ℕ)
      → IsSwitched t (some r)
      → Ends (IsSwitched t) (shifted fl z r)
  shifted-type t r none h = tt
  shifted-type t r (some z) h = h

  fold_with-type :
      (op : Token) (t : TypeDef) (v w : ValueDef) (f1 f2 : fl.F)
      → Ends
          (IsSwitched (type_given op t))
          (fold_with fl op t v w f1 f2 (record (value_of (some t)) { is_const = true }))
  unfolding fold_with set_bool_value
  fold_with-type Kind.tok_plus t v w f1 f2 = (refl, refl)
  fold_with-type Kind.tok_minus t v w f1 f2 = (refl, refl)
  fold_with-type Kind.tok_mult t v w f1 f2 = (refl, refl)
  fold_with-type Kind.tok_div t v w f1 f2 = elim (Bool-cases (is_integer (pt t))) [
    | inl e ↦ rw e (divided-type t _ (quotient (fl.to_int f1) (fl.to_int f2)) (refl, refl))
    | inr e ↦ rw e (refl, refl)
  ]
  fold_with-type Kind.tok_mod t v w f1 f2 =
      integer-type t _ (remainder (fl.to_int f1) (fl.to_int f2)) (refl, refl)
  fold_with-type Kind.tok_shl t v w f1 f2 =
      shifted-type t _ (shift_left (fl.to_uint f1) (fl.to_int f2)) (refl, refl)
  fold_with-type Kind.tok_shr t v w f1 f2 =
      integer-type t _ (shift_right (fl.to_int f1) (fl.to_int f2)) (refl, refl)
  fold_with-type Kind.tok_and t v w f1 f2 = (refl, refl)
  fold_with-type Kind.tok_and_not t v w f1 f2 = (refl, refl)
  fold_with-type Kind.tok_or t v w f1 f2 = (refl, refl)
  fold_with-type Kind.tok_xor t v w f1 f2 = (refl, refl)
  fold_with-type Kind.tok_log_or t v w f1 f2 = (refl, refl)
  fold_with-type Kind.tok_log_and t v w f1 f2 = (refl, refl)
  fold_with-type Kind.tok_eq t v w f1 f2 = (refl, refl)
  fold_with-type Kind.tok_ne t v w f1 f2 = (refl, refl)
  fold_with-type Kind.tok_lt t v w f1 f2 = (refl, refl)
  fold_with-type Kind.tok_le t v w f1 f2 = (refl, refl)
  fold_with-type Kind.tok_gt t v w f1 f2 = (refl, refl)
  fold_with-type Kind.tok_ge t v w f1 f2 = (refl, refl)
  fold_with-type _ t v w f1 f2 = tt

  folded-type :
      (t : TypeDef) (v w : ValueDef) (o : Option ValueDef)
      → IsSwitched t o
      → IsTyped t (folded fl v w o)
  folded-type t v w none h = inr (refl, refl)
  folded-type t v w (some r) h = inl (refl, h)

  -- Where the text of the first constant is a number and both types are found, folding gives, unless
  -- it panics, a constant or an error with `NoValue`. The constant has the type Bool for a comparison
  -- or a logic operation, and the wider of the two types for any other.
  pub generate_const_op_const-type :
      (op : Token) (v w : ValueDef) (t u : TypeDef) (f : fl.F)
      → str_to_const fl v.string_value ≡ some f
      → type_from_const_value fl v ≡ ok (some t)
      → type_from_const_value fl w ≡ ok (some u)
      → Ends (IsTyped (type_given op (wider t u))) (generate_const_op_const fl op v w)
  unfolding generate_const_op_const
  generate_const_op_const-type op v w t u f hv tv tw =
      let v' = record v { typ = some t } in
      let w' = record w { typ = some u } in
      let wide = (widest (v', t) (w', u)).1 in
      let given = type_given op wide in
      rw (hv, tv, tw, sym (wider_of v' w' t u))
        (Ends-bind (IsSwitched given) (IsTyped given)
          (fold_with fl op wide v' w' f (or_zero fl (str_to_const fl w.string_value))
            (record (value_of (some wide)) { is_const = true }))
          (λ r. ok (folded fl v' w' r))
          (fold_with-type op wide v' w' f (or_zero fl (str_to_const fl w.string_value)))
          (λ r h. folded-type given v' w' r h))

  -- The text of a negative constant, which folding writes, has the type String.
  negative_text :
      (v : ValueDef) (cs : Text)
      → v.string_value ≡ 45 ∷ cs
      → contains (45 ∷ cs) (codes ".") ≡ false
      → type_from_const_value fl v ≡ ok (some string_type)
  unfolding type_from_const_value
  negative_text v cs e h = rw (e, h) refl

  string_wins :
      (v w : ValueDef) (u : TypeDef)
      → type_index (pt u) < type_index Types.typ_string
      → (widest (record v { typ = some string_type }, string_type) (record w { typ = some u }, u)).1
        ≡ string_type
  unfolding widest type_index pt
  string_wins v w u lt = rw (lt→ltb _ _ lt) refl

  -- An operation on a constant whose text starts with a minus and has no dot, in front of a constant
  -- of a type below String, is folded for + - * to a constant of the type String.
  pub generate_const_op_const-negative :
      (op : Token) (v w : ValueDef) (cs : Text) (u : TypeDef) (f : fl.F)
      → is_ring op ≡ true
      → v.string_value ≡ 45 ∷ cs
      → contains (45 ∷ cs) (codes ".") ≡ false
      → str_to_const fl v.string_value ≡ some f
      → type_from_const_value fl w ≡ ok (some u)
      → type_index (pt u) < type_index Types.typ_string
      → Returns
          (λ o. (o.failed ≡ false) × HasType string_type o.value)
          (generate_const_op_const fl op v w)
  unfolding generate_const_op_const fold_with
  generate_const_op_const-negative Kind.tok_plus v w cs u f r e h hv tw lt =
      rw (hv, negative_text v cs e h, tw, string_wins v w u lt) (refl, (refl, refl))
  generate_const_op_const-negative Kind.tok_minus v w cs u f r e h hv tw lt =
      rw (hv, negative_text v cs e h, tw, string_wins v w u lt) (refl, (refl, refl))
  generate_const_op_const-negative Kind.tok_mult v w cs u f r e h hv tw lt =
      rw (hv, negative_text v cs e h, tw, string_wins v w u lt) (refl, (refl, refl))
  generate_const_op_const-negative _ v w cs u f r e h hv tw lt = cc

  -- A division or a remainder by a constant that is read as 0, of two constants of integer types,
  -- panics.
  pub generate_const_op_const-by_zero :
      (op : Token) (v w : ValueDef) (t u : TypeDef) (f : fl.F)
      → is_division op ≡ true
      → str_to_const fl v.string_value ≡ some f
      → str_to_const fl w.string_value ≡ some (fl.of_int (pos 0))
      → fl.to_int (fl.of_int (pos 0)) ≡ pos 0
      → type_from_const_value fl v ≡ ok (some t)
      → type_from_const_value fl w ≡ ok (some u)
      → is_integer (pt t) ≡ true
      → is_integer (pt u) ≡ true
      → generate_const_op_const fl op v w ≡ panic
  unfolding generate_const_op_const fold_with quotient remainder
  generate_const_op_const-by_zero Kind.tok_div v w t u f d hv hw z tv tw it iu =
      let v' = record v { typ = some t } in
      let w' = record w { typ = some u } in
      rw (hv, hw, tv, tw, wide_integer (v', t) (w', u) it iu, z) refl
  generate_const_op_const-by_zero Kind.tok_mod v w t u f d hv hw z tv tw it iu =
      rw (hv, hw, tv, tw, z) refl
  generate_const_op_const-by_zero _ v w t u f d hv hw z tv tw it iu = cc
