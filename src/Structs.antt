-- ===== src/Structs.antt =====
-- variables.go: where `ParseStructType` puts the fields of a struct.
pub mod Fields
pub mod Layout
use jkvlang.Prelude.{ℕ, ◌+◌, ◌*◌, ◌/◌, ◌%◌, ◌^◌, List, [], ◌∷◌, ◌++◌, Text, ◌==◌, if◌then◌else◌}
use jkvlang.Code.Types.{type_size}
use jkvlang.TypeDefs.Defs.{TypeDef, pt}

-- An entry of `Offsets`, with the type that `Fields` has for the name.
pub record Placed : Type 0 where
  pub name : Text
  pub typ : TypeDef
  pub offset : ℕ

-- One loop over the fields, in the order in which the iteration over the map gives them: the fields
-- with primary types of that size are placed from `ofs` on, and the result is behind them.
unfoldable pub place : ℕ → List (Text × TypeDef) → ℕ → List Placed × ℕ
unfolding type_size pt
place sz [] ofs = ([], ofs)
place sz ((n, t) ∷ fs) ofs =
    let taken = place sz fs (ofs + sz) in
    let passed = place sz fs ofs in
    if type_size (pt t) == sz
    then (record { name = n; typ = t; offset = ofs } ∷ taken.0, taken.1)
    else passed

-- `(ofs + 7) & 0xFFFFFFF8`
abbrev pub round_up : ℕ → ℕ
round_up ofs = (ofs + 7) % 2 ^ 32 / 8 * 8

-- The four loops, each with its own order of the fields: the offsets and `StructSize`.
unfoldable pub lay_out : (f8 f4 f2 f1 : List (Text × TypeDef)) → List Placed × ℕ
unfolding place
lay_out f8 f4 f2 f1 =
    let p8 = place 8 f8 0 in
    let p4 = place 4 f4 p8.1 in
    let p2 = place 2 f2 p4.1 in
    let p1 = place 1 f1 p2.1 in (p8.0 ++ p4.0 ++ p2.0 ++ p1.0, round_up p1.1)
