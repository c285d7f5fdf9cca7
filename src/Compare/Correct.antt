-- ===== src/Compare/Correct.antt =====
-- What `FilesAreEqual` compares: the lines that end in a newline.
use jkvlang.Prelude.{
  ℕ, zero, suc, ◌+◌, ◌<◌, ◌≡◌, ◌≢◌, ◌↔◌, ◌⊎◌, ==_iff, refl, sym, ap, true, false, Bool-cases, inl,
  inr, List, [], ◌∷◌, ◌++◌, Text, text_eq, text_eq_iff, none, some, length, ◌==◌, if◌then◌else◌,
  arith,
}
use jkvlang.Prelude.Outcomes.{Outcome, Returns, Returns-weaken}
use jkvlang.Compare.{
  Verdict, equal, newline, read_line, compare_lines, compare_loop, files_are_equal,
}

abbrev put_before : ℕ → List Text → List Text
put_before c [] = []
put_before c (l ∷ ls) = (c ∷ l) ∷ ls

-- The lines that end in a newline, without it.
abbrev pub lines : Text → List Text
lines [] = []
lines (c ∷ cs) = if c == newline then [] ∷ lines cs else put_before c (lines cs)

read_line-cases :
    (a : Text)
    → ((read_line a ≡ none) × (lines a ≡ []))
      ⊎ ((w : Text) × (r : Text) × (read_line a ≡ some (w ++ newline ∷ [], r))
          × (lines a ≡ w ∷ lines r)
          × (length r < length a))
unfolding read_line
read_line-cases [] = inl (refl, refl)
read_line-cases (c ∷ cs) = elim (Bool-cases (c == newline)) [
  | inl e ↦ inr ([], cs, rw (e, (==_iff c newline).0 e) refl, rw e refl, omega arith)
  | inr e ↦ elim (read_line-cases cs) [
    | inl h ↦ inl (rw (e, h.0) refl, rw (e, h.1) refl)
    | inr (w, r, p, q, lt) ↦ inr (c ∷ w, r, rw (e, p) refl, rw (e, q) refl, omega arith)
  ]
]

tails : (x y : ℕ) (s t : Text) → x ∷ s ≡ y ∷ t → (x ≡ y) × (s ≡ t)
tails x y s t e = ground arith

not_nil : (v : Text) → ¬ [] ≡ v ++ newline ∷ []
not_nil [] e = cc
not_nil (x ∷ v) e = cc

same_line : (w v : Text) → w ++ newline ∷ [] ≡ v ++ newline ∷ [] → w ≡ v
same_line [] [] e = refl
same_line [] (y ∷ v) e = absurd (not_nil v (tails newline y [] (v ++ newline ∷ []) e).1)
same_line (x ∷ w) [] e = absurd (not_nil w (sym (tails x newline (w ++ newline ∷ []) [] e).1))
same_line (x ∷ w) (y ∷ v) e =
    let h = tails x y (w ++ newline ∷ []) (v ++ newline ∷ []) e in rw (h.0, same_line w v h.1) refl

first_lines : (w v : Text) (ls ks : List Text) → w ∷ ls ≡ v ∷ ks → (w ≡ v) × (ls ≡ ks)
first_lines w v ls ks e = ground arith

other_line : (w v : Text) → text_eq (w ++ newline ∷ []) (v ++ newline ∷ []) ≡ false → w ≢ v
other_line w v e h =
    let same : text_eq (w ++ newline ∷ []) (v ++ newline ∷ []) ≡ true =
      (text_eq_iff (w ++ newline ∷ []) (v ++ newline ∷ [])).1 (ap (λ t. t ++ newline ∷ []) h) in
    cc

abbrev Decides : List Text → List Text → Verdict → Type 0
Decides ls ks v = (v ≡ equal) ↔ (ls ≡ ks)

step-Decides :
    (go : Text → Text → Outcome Verdict) (n : ℕ) (w v r s : Text)
    → Returns (Decides (lines r) (lines s)) (go r s)
    → Returns
        (Decides (w ∷ lines r) (v ∷ lines s))
        (compare_lines go n (some (w ++ newline ∷ [], r)) (some (v ++ newline ∷ [], s)))
step-Decides go n w v r s h = elim (Bool-cases (text_eq (w ++ newline ∷ []) (v ++ newline ∷ []))) [
  | inl e ↦
      let same = same_line w v ((text_eq_iff (w ++ newline ∷ []) (v ++ newline ∷ [])).0 e) in
      rw e (
        Returns-weaken (Decides (lines r) (lines s)) (Decides (w ∷ lines r) (v ∷ lines s)) (go r s)
          (λ x d.
            ((λ q. rw (same, d.0 q) refl), (λ q. d.1 (first_lines w v (lines r) (lines s) q).1)))
          h)
  | inr e ↦
      rw e ((λ q. cc), (λ q. absurd (other_line w v e (first_lines w v (lines r) (lines s) q).0)))
]

compare_loop-Decides :
    (fuel n : ℕ) (a b : Text)
    → length a < fuel
    → Returns (Decides (lines a) (lines b)) (compare_loop fuel n a b)
unfolding compare_loop
compare_loop-Decides zero n a b h = absurd (omega arith)
compare_loop-Decides (suc fuel) n a b h = elim (read_line-cases a) [
  | inl p ↦ elim (read_line-cases b) [
    | inl q ↦ rw (p.0, q.0, p.1, q.1) ((λ x. refl), (λ x. refl))
    | inr (v, s, q, k, lt) ↦ rw (p.0, q, p.1, k) ((λ x. cc), (λ x. cc))
  ]
  | inr (w, r, p, l, less) ↦ elim (read_line-cases b) [
    | inl q ↦ rw (p, q.0, l, q.1) ((λ x. cc), (λ x. cc))
    | inr (v, s, q, k, lt) ↦
        rw (p, q, l, k)
          (step-Decides (compare_loop fuel (n + 1)) n w v r s
            (compare_loop-Decides fuel (n + 1) r s (omega arith)))
  ]
]

-- `FilesAreEqual` returns, and it returns nil exactly if both files have the same lines, of those
-- that end in a newline. What stands behind the last newline is not compared.
pub files_are_equal-lines :
    (a b : Text)
    → Returns (λ v. (v ≡ equal) ↔ (lines a ≡ lines b)) (files_are_equal (some a) (some b))
unfolding files_are_equal
files_are_equal-lines a b = compare_loop-Decides (length a + 1) 1 a b (omega arith)
