-- ===== src/Values/Literals/Laws.antt =====
-- The tables of literals give each value one number for good.
use jkvlang.Prelude.{
  ℕ, zero, suc, ◌+◌, ◌≡◌, refl, ap, ◌∙◌, ◌↔◌, inl, inr, Bool, true, Bool-cases, Option-cases, List,
  [], ◌∷◌, ◌++◌, Text, text_eq, text_eq_iff, none, some, length, get_elem?, arith,
}
use jkvlang.Values.Literals.{find_from, add_literal, Literals, literal_init}

module _ {A : Type 0} (eq : A → A → Bool) (eq_iff : (a b : A) → (eq a b ≡ true) ↔ (a ≡ b)) where
  find_from-some :
      (v : A) (i : ℕ) (defs : List A) {j : ℕ}
      → find_from eq v i defs ≡ some j
      → (k : ℕ) × (j ≡ i + k) × (get_elem? defs k ≡ some v)
  unfolding find_from
  find_from-some v i [] e = cc
  find_from-some v i (s ∷ ss) e = elim (Bool-cases (eq s v)) [
    | inl here ↦ (0, ground arith, ground (arith, (eq_iff s v).0))
    | inr later ↦
        let (k, at, found) = find_from-some v (i + 1) ss (rw later at e) in
        (suc k, omega arith, found)
  ]

  find_from-none :
      (v : A) (i : ℕ) (defs : List A)
      → find_from eq v i defs ≡ none
      → find_from eq v i (defs ++ v ∷ []) ≡ some (i + length defs)
  unfolding find_from
  find_from-none v i [] e = ground (arith, (eq_iff v v).1 refl)
  find_from-none v i (s ∷ ss) e = elim (Bool-cases (eq s v)) [
    | inl here ↦ absurd (ground arith)
    | inr later ↦ rw later (find_from-none v (i + 1) ss (rw later at e) ∙ ground arith)
  ]

get_elem?-append :
    {A : Type 0} (xs ys : List A) (i : ℕ) {a : A}
    → get_elem? xs i ≡ some a
    → get_elem? (xs ++ ys) i ≡ some a
get_elem?-append [] ys i e = cc
get_elem?-append (x ∷ xs) ys zero e = e
get_elem?-append (x ∷ xs) ys (suc i) e = get_elem?-append xs ys i e

get_elem?-length :
    {A : Type 0} (xs : List A) (a : A) → get_elem? (xs ++ a ∷ []) (length xs) ≡ some a
get_elem?-length [] a = refl
get_elem?-length (x ∷ xs) a = get_elem?-length xs a

-- `AddLiteral` returns a number at which its value stands. It keeps every number given before, and
-- a second call for the same value changes nothing and returns the same number.
pub add_literal_lem :
    (v : Text) (defs : List Text)
    → (get_elem? (add_literal v defs).0 (add_literal v defs).1 ≡ some v)
      × ((i : ℕ) (w : Text)
          → get_elem? defs i ≡ some w
          → get_elem? (add_literal v defs).0 i ≡ some w)
      × (add_literal v (add_literal v defs).0 ≡ add_literal v defs)
unfolding add_literal
add_literal_lem v defs = elim (Option-cases (find_from text_eq v 0 defs)) [
  | inl absent ↦ rw absent (
    get_elem?-length defs v,
    λ i w e. get_elem?-append defs (v ∷ []) i e,
    rw (find_from-none text_eq text_eq_iff v 0 defs absent)
        (ap (λ (n : ℕ). (defs ++ v ∷ [], n)) (omega arith)),
  )
  | inr (j, found) ↦ rw found (
    (let (k, at, e) = find_from-some text_eq text_eq_iff v 0 defs found in
        ap (get_elem? defs) (let p : j ≡ k = omega arith in p) ∙ e),
    λ i w e. e,
    rw found refl,
  )
]

-- After `LiteralInit` the table of strings is empty, so the first string added gets number 0,
-- whatever it is.
pub literal_init-str0 :
    {F : Type 0} (l : Literals F) (v : Text)
    → add_literal v (literal_init l).string_literal_defs ≡ (v ∷ [], 0)
unfolding literal_init add_literal find_from
literal_init-str0 l v = refl
