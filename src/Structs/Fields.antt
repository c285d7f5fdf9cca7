-- ===== src/Structs/Fields.antt =====
-- The loops of `ParseStructType` place every field once.
use mathlib.Core.Path.{subst}
use mathlib.Core.List.{Perm, filter, perm_middle}
use mathlib.Core.List.Perm
use jkvlang.Prelude.{
  ℕ, ◌+◌, ◌≡◌, ◌≢◌, refl, sym, ap, ◌∙◌, ◌⊎◌, inl, inr, Bool, true, false, Bool-cases, List, [], ◌∷◌,
  ◌++◌, map, Text, ◌==◌, All,
}
use jkvlang.Code.Types
use jkvlang.Code.Types.{PrimaryType, type_size}
use jkvlang.TypeDefs.Defs.{TypeDef, pt}
use jkvlang.Structs.{Placed, place, lay_out}

-- The field that has been placed.
abbrev pub field : Placed → Text × TypeDef
field p = (p.name, p.typ)

-- A field whose type has a size.
abbrev pub IsSized : Text × TypeDef → Type 0
IsSized f = type_size (pt f.1) ≢ 0

is_true : (b : Bool) → Dec (b ≡ true)
is_true true = yes refl
is_true false = no (λ e. cc)

-- The fields of one size.
abbrev of_size : ℕ → List (Text × TypeDef) → List (Text × TypeDef)
of_size sz fs = filter (λ f. is_true (type_size (pt f.1) == sz)) fs

place-of_size :
    (sz : ℕ) (fs : List (Text × TypeDef)) (ofs : ℕ) → map field (place sz fs ofs).0 ≡ of_size sz fs
unfolding place is_true
place-of_size sz [] ofs = refl
place-of_size sz ((n, t) ∷ fs) ofs = elim (Bool-cases (type_size (pt t) == sz)) [
  | inl e ↦ rw e (ap (λ l. (n, t) ∷ l) (place-of_size sz fs (ofs + sz)))
  | inr e ↦ rw e (place-of_size sz fs ofs)
]

size-cases :
    (t : PrimaryType)
    → type_size t ≢ 0
    → (type_size t ≡ 8) ⊎ (type_size t ≡ 4) ⊎ (type_size t ≡ 2) ⊎ (type_size t ≡ 1)
unfolding type_size
size-cases Types.typ_none h = absurd (h refl)
size-cases Types.typ_count h = absurd (h refl)
size-cases Types.typ_bool h = inr (inr (inr refl))
size-cases Types.typ_u8 h = inr (inr (inr refl))
size-cases Types.typ_i16 h = inr (inr (inl refl))
size-cases Types.typ_u16 h = inr (inr (inl refl))
size-cases Types.typ_i32 h = inr (inl refl)
size-cases Types.typ_u32 h = inr (inl refl)
size-cases Types.typ_rune h = inr (inl refl)
size-cases Types.typ_f32 h = inr (inl refl)
size-cases _ h = inl refl

abbrev by_size : List (Text × TypeDef) → List (Text × TypeDef)
by_size fs = of_size 8 fs ++ of_size 4 fs ++ of_size 2 fs ++ of_size 1 fs

-- A field moves to the front of four lists, from the front of each.
module _ (x : Text × TypeDef) (a b c d : List (Text × TypeDef)) where
  from_second : Perm (a ++ (x ∷ b) ++ c ++ d) (x ∷ (a ++ b ++ c ++ d))
  from_second = Perm.append_right d (Perm.append_right c (perm_middle a b))

  from_third : Perm (a ++ b ++ (x ∷ c) ++ d) (x ∷ (a ++ b ++ c ++ d))
  from_third = Perm.append_right d (perm_middle (a ++ b) c)

  from_fourth : Perm (a ++ b ++ c ++ (x ∷ d)) (x ∷ (a ++ b ++ c ++ d))
  from_fourth = perm_middle (a ++ b ++ c) d

by_size-Perm : (fs : List (Text × TypeDef)) → All IsSized fs → Perm (by_size fs) fs
unfolding is_true
by_size-Perm [] h = Perm.refl []
by_size-Perm ((n, t) ∷ fs) h =
    let a = of_size 8 fs in
    let b = of_size 4 fs in
    let c = of_size 2 fs in
    let d = of_size 1 fs in
    let rest : Perm ((n, t) ∷ (a ++ b ++ c ++ d)) ((n, t) ∷ fs) =
      Perm.cons (n, t) (by_size-Perm fs h.1) in
    elim (size-cases (pt t) h.0) [
      | inl e ↦ rw e rest
      | inr (inl e) ↦ rw e (Perm.trans (from_second (n, t) a b c d) rest)
      | inr (inr (inl e)) ↦ rw e (Perm.trans (from_third (n, t) a b c d) rest)
      | inr (inr (inr e)) ↦ rw e (Perm.trans (from_fourth (n, t) a b c d) rest)
    ]

map-append : (xs ys : List Placed) → map field (xs ++ ys) ≡ map field xs ++ map field ys
map-append [] ys = refl
map-append (x ∷ xs) ys = ap (λ l. field x ∷ l) (map-append xs ys)

-- The fields of four lists that stand one behind the other.
fields-append :
    (p q r s : List Placed) {a b c d : List (Text × TypeDef)}
    → map field p ≡ a
    → map field q ≡ b
    → map field r ≡ c
    → map field s ≡ d
    → map field (p ++ q ++ r ++ s) ≡ a ++ b ++ c ++ d
fields-append p q r s e f g h =
    map-append (p ++ q ++ r) s
    ∙ ap (λ l. l ++ map field s)
        (map-append (p ++ q) r ∙ ap (λ l. l ++ map field r) (map-append p q))
    ∙ rw (e, f, g, h) refl

same_size-Perm :
    (sz : ℕ) {xs ys : List (Text × TypeDef)} → Perm xs ys → Perm (of_size sz xs) (of_size sz ys)
same_size-Perm sz p = Perm.filter (λ f. is_true (type_size (pt f.1) == sz)) p

pub lay_out-Perm :
    (fields f8 f4 f2 f1 : List (Text × TypeDef))
    → Perm f8 fields
    → Perm f4 fields
    → Perm f2 fields
    → Perm f1 fields
    → All IsSized fields
    → Perm (map field (lay_out f8 f4 f2 f1).0) fields
unfolding lay_out
lay_out-Perm fields f8 f4 f2 f1 h8 h4 h2 h1 sized =
    let o8 = (place 8 f8 0).1 in
    let o4 = (place 4 f4 o8).1 in
    let o2 = (place 2 f2 o4).1 in
    subst (λ l. Perm l fields)
      (sym (
        fields-append (place 8 f8 0).0 (place 4 f4 o8).0 (place 2 f2 o4).0 (place 1 f1 o2).0
          (place-of_size 8 f8 0) (place-of_size 4 f4 o8) (place-of_size 2 f2 o4)
          (place-of_size 1 f1 o2)))
      (Perm.trans
        (Perm.append
          (Perm.append (Perm.append (same_size-Perm 8 h8) (same_size-Perm 4 h4))
            (same_size-Perm 2 h2))
          (same_size-Perm 1 h1))
        (by_size-Perm fields sized))
