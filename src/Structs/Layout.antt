-- ===== src/Structs/Layout.antt =====
-- The layout of a struct has every field, no gap, no overlap and no field out of its alignment.
use mathlib.Core.List.{Perm}
use jkvlang.Prelude.{
  ℕ, ◌+◌, ◌*◌, ◌/◌, ◌^◌, ◌≤◌, ◌<◌, ◌≡◌, refl, ◌∙◌, true, Bool-cases, inl, inr, List, [], ◌∷◌, ◌++◌,
  map, Text, ◌==◌, length, All, arith,
}
use jkvlang.Code.Types.{type_size}
use jkvlang.TypeDefs.Defs.{TypeDef, pt}
use jkvlang.Structs.{Placed, place, lay_out}
use jkvlang.Structs.Fields.{field, IsSized, lay_out-Perm}

-- `n` is a multiple of `d`.
abbrev pub IsMultiple : ℕ → ℕ → Type 0
IsMultiple d n = (k : ℕ) × (n ≡ k * d)

-- The size of the field's type.
abbrev pub bytes : Placed → ℕ
bytes f = type_size (pt f.typ)

-- The fields stand one behind the other from `first` to `last`, each at a multiple of its size.
abbrev pub Packed : ℕ → ℕ → List Placed → Type 0
Packed first last [] = first ≡ last
Packed first last (f ∷ fs) =
    (f.offset ≡ first) × IsMultiple (bytes f) f.offset × Packed (f.offset + bytes f) last fs

Packed-append :
    (a b c : ℕ) (xs ys : List Placed) → Packed a b xs → Packed b c ys → Packed a c (xs ++ ys)
Packed-append a b c [] ys h k = rw h k
Packed-append a b c (x ∷ xs) ys h k = (h.0, h.1, Packed-append (x.offset + bytes x) b c xs ys h.2 k)

is_size : (t : TypeDef) (sz : ℕ) → (type_size (pt t) == sz) ≡ true → type_size (pt t) ≡ sz
is_size t sz e = ground arith

place-Packed :
    (sz : ℕ) (fs : List (Text × TypeDef)) (ofs : ℕ)
    → IsMultiple sz ofs
    → IsMultiple sz (place sz fs ofs).1 × Packed ofs (place sz fs ofs).1 (place sz fs ofs).0
unfolding place
place-Packed sz [] ofs h = (h, refl)
place-Packed sz ((n, t) ∷ fs) ofs h = elim (Bool-cases (type_size (pt t) == sz)) [
  | inl e ↦
      let rest = place-Packed sz fs (ofs + sz) (h.0 + 1, rw h.1 (grind arith)) in
      let q = is_size t sz e in rw e (rest.0, (refl, rw q h, rw q rest.1))
  | inr e ↦ rw e (place-Packed sz fs ofs h)
]

halved : (d n : ℕ) → IsMultiple (2 * d) n → IsMultiple d n
halved d n h = (h.0 * 2, h.1 ∙ grind arith)

place_end :
    (sz : ℕ) (fs : List (Text × TypeDef)) (ofs : ℕ) → (place sz fs ofs).1 ≤ ofs + length fs * sz
unfolding place
place_end sz [] ofs = grind arith
place_end sz ((n, t) ∷ fs) ofs = elim (Bool-cases (type_size (pt t) == sz)) [
  | inl e ↦ rw e (grind (arith, place_end sz fs (ofs + sz)))
  | inr e ↦ rw e (grind (arith, place_end sz fs ofs))
]

-- Whatever the orders in which the four loops meet the fields, when each field's type has a size and
-- the fields are not so many that the struct exceeds 32 bits: every field is placed once; the fields
-- stand one behind the other from offset 0 on, each at a multiple of the size of its type and with
-- room for that size; and the size of the struct is the next multiple of 8 behind the last of them.
pub lay_out-Packed :
    (fields f8 f4 f2 f1 : List (Text × TypeDef))
    → Perm f8 fields
    → Perm f4 fields
    → Perm f2 fields
    → Perm f1 fields
    → All IsSized fields
    → length f8 * 8 + length f4 * 4 + length f2 * 2 + length f1 * 1 + 7 < 2 ^ 32
    → Perm (map field (lay_out f8 f4 f2 f1).0) fields
      × ((last : ℕ) × Packed 0 last (lay_out f8 f4 f2 f1).0
          × IsMultiple 8 (lay_out f8 f4 f2 f1).1
          × (last ≤ (lay_out f8 f4 f2 f1).1)
          × ((lay_out f8 f4 f2 f1).1 < last + 8))
unfolding lay_out
lay_out-Packed fields f8 f4 f2 f1 h8 h4 h2 h1 sized few =
    let o8 = (place 8 f8 0).1 in
    let o4 = (place 4 f4 o8).1 in
    let o2 = (place 2 f2 o4).1 in
    let last = (place 1 f1 o2).1 in
    let p8 = place-Packed 8 f8 0 (0, refl) in
    let p4 = place-Packed 4 f4 o8 (halved 4 o8 p8.0) in
    let p2 = place-Packed 2 f2 o4 (halved 2 o4 p4.0) in
    let p1 = place-Packed 1 f1 o2 (halved 1 o2 p2.0) in
    let fits : last + 7 < 2 ^ 32 =
      omega (arith, place_end 8 f8 0, place_end 4 f4 o8, place_end 2 f2 o4, place_end 1 f1 o2) in
    (
      lay_out-Perm fields f8 f4 f2 f1 h8 h4 h2 h1 sized,
      (
        last,
        Packed-append 0 o2 last ((place 8 f8 0).0 ++ (place 4 f4 o8).0 ++ (place 2 f2 o4).0)
            (place 1 f1 o2).0
            (Packed-append 0 o4 o2 ((place 8 f8 0).0 ++ (place 4 f4 o8).0) (place 2 f2 o4).0
              (Packed-append 0 o8 o4 (place 8 f8 0).0 (place 4 f4 o8).0 p8.1 p4.1) p2.1)
            p1.1,
        ((last + 7) / 8, omega arith),
        omega arith,
        omega arith,
      ),
    )
