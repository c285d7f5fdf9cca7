-- ===== src/Values/Literals.antt =====
-- values.go: the tables of literals. `LiteralInit` starts them, and each `Add…` looks a value up or
-- appends it.
pub mod Laws
use jkvlang.Prelude.{
  ℕ, ◌+◌, ◌-◌, Bool, List, [], ◌∷◌, ◌++◌, Text, text_eq, Option, none, some, length, if◌then◌else◌,
}

-- `for i, s := range defs { if s == value { return i } }`
unfoldable pub find_from : {A : Type 0} → (A → A → Bool) → A → ℕ → List A → Option ℕ
find_from eq v i [] = none
find_from eq v i (s ∷ ss) = if eq s v then some i else find_from eq v (i + 1) ss

-- The index that a search found, or that of the value appended.
abbrev pub intern : {A : Type 0} → A → List A → Option ℕ → List A × ℕ
intern v defs (some i) = (defs, i)
intern v defs none = (defs ++ v ∷ [], length defs)

-- `AddLiteral`: the table and the index, from 0.
unfoldable pub add_literal : Text → List Text → List Text × ℕ
unfolding find_from
add_literal v defs = intern v defs (find_from text_eq v 0 defs)

-- `SliceLit`, over the type of floats.
pub record SliceLit (F : Type 0) : Type 0 where
  pub count : ℕ
  pub size : ℕ
  pub name : Text
  pub int_values : List ℕ
  pub uint_values : List ℕ
  pub float_values : List F
  pub bool_values : List Bool
  pub string_values : List ℕ

-- The four global tables.
pub record Literals (F : Type 0) : Type 0 where
  pub string_literal_defs : List Text
  pub f64_literal_defs : List F
  pub f32_literal_defs : List F
  pub slice_literal_defs : List (SliceLit F)

module _ {F : Type 0} where
  -- `LiteralInit`: it adds the empty string, and makes the table of strings anew afterwards.
  unfoldable pub literal_init : Literals F → Literals F
  unfolding add_literal
  literal_init l =
      let first = record l { string_literal_defs = (add_literal [] []).0 } in
      let floats = record first { f64_literal_defs = []; f32_literal_defs = [] } in
      record floats { string_literal_defs = []; slice_literal_defs = [] }

  module _ (eq : F → F → Bool) where
    -- `AddF64Lit` and `AddF32Lit`: the table and the number, from 1.
    unfoldable pub add_f64_lit : F → List F → List F × ℕ
    unfolding find_from
    add_f64_lit v defs = let (t, i) = intern v defs (find_from eq v 0 defs) in (t, i + 1)

    unfoldable pub add_f32_lit : F → List F → List F × ℕ
    unfolding find_from
    add_f32_lit v defs = let (t, i) = intern v defs (find_from eq v 0 defs) in (t, i + 1)
