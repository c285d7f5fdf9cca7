-- ===== src/Code/Asm/Laws.antt =====
-- What the writer has written, in the file and in `ArgCode`, read as one text.
use mathlib.Core.List.{append-nil, append_assoc}
use jkvlang.Prelude.{
  ℕ, zero, suc, ◌-◌, ◌≤◌, ◌≡◌, refl, sym, ap, inl, inr, ◌⊎◌, true, false, Bool-cases, List, [], ◌∷◌,
  ◌++◌, length, length-append, length-take, take, drop, take-append-drop, ltb, ◌==◌, if◌then◌else◌,
  arith,
}
use jkvlang.Prelude.Outcomes.{ok, Returns, Returns-bind, Returns-weaken}
use jkvlang.Code.Lines.{Line}
use jkvlang.Code.Asm.{
  Asm, change_last, cleanup_loop, backwards, output_cleanup_code, concat, cons_arg_code,
  append_last, write,
}

-- The text of the file with that of `ArgCode` behind it.
abbrev pub emitted : Asm → List Line
emitted a = a.output ++ concat a.arg_code

concat-append : (xs ys : List (List Line)) → concat (xs ++ ys) ≡ concat xs ++ concat ys
concat-append [] ys = refl
concat-append (x ∷ xs) ys = simp (concat-append xs ys, append_assoc)

concat-append_last :
    (txt x : List Line) (xs : List (List Line))
    → concat (append_last txt (x ∷ xs)) ≡ concat (x ∷ xs) ++ txt
unfolding append_last
concat-append_last txt x [] = simp append-nil
concat-append_last txt x (y ∷ ys) = simp (concat-append_last txt y ys, append_assoc)

-- Text behind the file, or behind the last entry of `ArgCode`, is text behind both.
append-emitted :
    (txt out : List Line) (xs : List (List Line))
    → (length xs == 0 ≡ true) × ((out ++ txt) ++ concat xs ≡ (out ++ concat xs) ++ txt)
      ⊎ (length xs == 0 ≡ false) × (out ++ concat (append_last txt xs) ≡ (out ++ concat xs) ++ txt)
append-emitted txt out [] = inl (refl, simp append-nil)
append-emitted txt out (x ∷ xs) =
    inr (
      ground arith,
      rw (concat-append_last txt x xs) (sym (append_assoc out (concat (x ∷ xs)) txt)),
    )

-- `Write` puts its text behind all that was written, wherever that goes; with code generation
-- switched off it writes nothing.
pub emitted-write :
    (txt : List Line) (a : Asm)
    → emitted (write txt a) ≡ (if ltb 0 a.no_code then emitted a else emitted a ++ txt)
unfolding write
emitted-write txt a = elim (Bool-cases (ltb 0 a.no_code)) [
  | inl e ↦ rw e refl
  | inr e ↦ elim (append-emitted txt a.output a.arg_code) [
    | inl h ↦ rw (e, h.0) h.1
    | inr h ↦ rw (e, h.0) h.1
  ]
]

-- Joining the last entries in their order keeps the text, and leaves at most the entries before
-- them and one more.
pub cons_arg_code-emitted :
    (n : ℕ) (a : Asm)
    → (emitted (cons_arg_code (suc n) false a) ≡ emitted a)
      × (length (cons_arg_code (suc n) false a).arg_code ≤ suc (length a.arg_code - suc n))
unfolding cons_arg_code
cons_arg_code-emitted n a =
    elim (Bool-cases (ltb (length a.arg_code - suc n) (length a.arg_code))) [
      | inl e ↦ (
        rw (
          e,
          concat-append (take (length a.arg_code - suc n) a.arg_code)
              (concat (drop (length a.arg_code - suc n) a.arg_code) ∷ []),
          append-nil (concat (drop (length a.arg_code - suc n) a.arg_code)),
          ← concat-append (take (length a.arg_code - suc n) a.arg_code)
              (drop (length a.arg_code - suc n) a.arg_code),
          take-append-drop (length a.arg_code - suc n) a.arg_code,
        ),
        rw (e, length-append, length-take (length a.arg_code - suc n) a.arg_code (omega arith))
            (ground arith),
      )
      | inr e ↦ (rw e refl, rw e (ground arith))
    ]

-- The last entry of a list that has one.
change_last-append_last :
    (txt x : List Line) (xs : List (List Line))
    → change_last (λ a. a ++ txt) (x ∷ xs) ≡ ok (append_last txt (x ∷ xs))
unfolding change_last append_last
change_last-append_last txt x [] = refl
change_last-append_last txt x (y ∷ ys) = rw (change_last-append_last txt y ys) refl

append_last-has_one :
    (txt x : List Line) (xs : List (List Line)) → 1 ≤ length (append_last txt (x ∷ xs))
unfolding append_last
append_last-has_one txt x [] = ground arith
append_last-has_one txt x (y ∷ ys) = ground arith

cleanup_loop-Returns :
    (n : ℕ) (tops args : List (List Line))
    → n ≤ length tops
    → 1 ≤ length args
    → Returns
        (λ r. (r.0 ≡ 0) × (concat r.1 ≡ concat args ++ concat (take n tops)))
        (cleanup_loop n tops args)
unfolding cleanup_loop
cleanup_loop-Returns zero tops args h k = (refl, simp append-nil)
cleanup_loop-Returns (suc n) [] args h k = absurd (omega arith)
cleanup_loop-Returns (suc n) ([] ∷ tops) args h k = cleanup_loop-Returns n tops args (omega arith) k
cleanup_loop-Returns (suc n) ((l ∷ ls) ∷ tops) [] h k = absurd (omega arith)
cleanup_loop-Returns (suc n) ((l ∷ ls) ∷ tops) (x ∷ xs) h k =
    rw (change_last-append_last (l ∷ ls) x xs) (
      Returns-weaken _ _ (cleanup_loop n tops (append_last (l ∷ ls) (x ∷ xs)))
        (λ r p. (p.0, simp (p.1, concat-append_last (l ∷ ls) x xs, append_assoc)))
        (cleanup_loop-Returns n tops (append_last (l ∷ ls) (x ∷ xs)) (omega arith)
          (append_last-has_one (l ∷ ls) x xs)))

minus_zero : (n : ℕ) → n - 0 ≡ n
minus_zero n = omega arith

take-length : (xs : List (List Line)) → take (length xs) xs ≡ xs
take-length [] = refl
take-length (x ∷ xs) = ap (λ ys. x ∷ ys) (take-length xs)

length-backwards : (xs : List (List Line)) → length (backwards xs) ≡ length xs
length-backwards [] = refl
length-backwards (x ∷ xs) =
    rw (length-append (backwards xs) (x ∷ []), length-backwards xs) (omega arith)

-- `OutputCleanupCode` returns when the stack of cleanup code has the `n` entries asked for and
-- `ArgCode` has an entry to write to: the top `n` entries then stand behind the text, the last one
-- first. The stack of cleanup code is as long afterwards as before, and has the same entries.
pub output_cleanup_code-Returns :
    (n : ℕ) (a : Asm)
    → n ≤ length a.cleanup_code
    → 1 ≤ length a.arg_code
    → Returns
        (λ b.
          (emitted b ≡ emitted a ++ concat (take n (backwards a.cleanup_code)))
          × (b.cleanup_code ≡ a.cleanup_code))
        (output_cleanup_code n a)
unfolding output_cleanup_code
output_cleanup_code-Returns n a h k = elim (Bool-cases (ltb (length a.cleanup_code) n)) [
  | inl e ↦ absurd (ground arith)
  | inr e ↦ rw e (
      Returns-bind _ _ (cleanup_loop n (backwards a.cleanup_code) a.arg_code) _
        (cleanup_loop-Returns n (backwards a.cleanup_code) a.arg_code
          (rw (length-backwards a.cleanup_code) h) k)
        (λ r p. (
          rw p.1 (
              sym (
                append_assoc a.output (concat a.arg_code)
                  (concat (take n (backwards a.cleanup_code))))),
          rw (p.0, minus_zero (length a.cleanup_code)) (take-length a.cleanup_code),
        )))
]
