-- ===== src/Token/Termination/Loops.antt =====
-- Each loop of the scanner returns within its fuel, at a later state of the same scan.
use native.Mathlib.Nat.{le_trans}
use jkvlang.Prelude.{
  ℕ, zero, suc, ◌+◌, ◌<◌, ◌≡◌, ◌≢◌, refl, ap, ◌∙◌, Bool, true, false, not, ◌&&◌, ◌||◌, length, ltb,
  ◌==◌, if◌then◌else◌, Bool-cases, arith, inl, inr, Text, ◌++◌, ◌∷◌, [],
}
use jkvlang.Prelude.Outcomes.{Outcome, ok, ◌>>=◌, Returns, Returns-bind, Returns-weaken}
use jkvlang.Prelude.Golib.{Golib, DecodesRunes}
use jkvlang.Token.Kind.{is_num, is_hex, is_alfa_num}
use jkvlang.Token.Scanner.{
  State, fuel, next_char, skip_blanks, push_char, string_loop, line_comment, comment_mark,
  block_comment, number_loop, parse_number, word_loop,
}
use jkvlang.Token.Termination.Chars.{
  Fits, left, Follows, Steps, turns, turns-Steps, left_pos, left-lt-fuel, next_char-Returns,
}

pub Steps-Follows : {s t : State} → Steps s t → Follows s t
Steps-Follows h = record { fits = h.fits; text_same = h.text_same; left_le = h.left_le }

pub Follows-refl : (s : State) → Fits s → Follows s s
Follows-refl s h = record { fits = h; text_same = refl; left_le = omega arith }

pub Follows-trans : {s t u : State} → Follows s t → Follows t u → Follows s u
Follows-trans h k = record {
  fits = k.fits;
  text_same = k.text_same ∙ h.text_same;
  left_le = omega arith;
}

-- The fields that a loop changes between two characters do not count.
Follows-same :
    {t' u : State} (t : State) → t'.text ≡ t.text → left t' ≡ left t → Follows t' u → Follows t u
Follows-same t e l k = record { fits = k.fits; text_same = k.text_same ∙ e; left_le = omega arith }

turns_nonzero :
    (s : State) → (not (s.ch1 == 0) && ltb 0 s.comment_level) ≡ true → turns s ≡ left s + 1
unfolding turns
turns_nonzero s h = ground arith

comment_mark-same :
    (s : State)
    → ((comment_mark s).p ≡ s.p)
      × ((comment_mark s).text ≡ s.text)
      × (left (comment_mark s) ≡ left s)
      × (turns (comment_mark s) ≡ turns s)
unfolding comment_mark left turns
comment_mark-same s = ground arith

module _ (go : Golib) (laws : DecodesRunes go) where
  -- A loop that reads one more character and goes on from there.
  chain :
      {B : Type 0} (state : B → State) (s : State) (f : State → Outcome B)
      → Fits s
      → ((t : State) → Steps s t → Returns (λ r. Follows t (state r)) (f t))
      → Returns (λ r. Follows s (state r)) (next_char go s >>= f)
  chain state s f h k =
      Returns-bind (Steps s) (λ r. Follows s (state r)) (next_char go s) f
        (next_char-Returns go laws s h)
        λ t st.
          Returns-weaken (λ r. Follows t (state r)) (λ r. Follows s (state r)) (f t)
            (λ r. Follows-trans (Steps-Follows st)) (k t st)

  pub skip_blanks-Returns :
      (f : ℕ) (s : State) → Fits s → turns s < f → Returns (Follows s) (skip_blanks go f s)
  unfolding skip_blanks turns
  skip_blanks-Returns zero s h m = absurd (omega arith)
  skip_blanks-Returns (suc f) s h m =
      elim (Bool-cases (s.ch1 == b'\n' || s.ch1 == b' ' || s.ch1 == b'\t')) [
        | inr other ↦ rw other (Follows-refl s h)
        | inl blank ↦ rw blank (
            chain (λ r. r) s (λ t. skip_blanks go f t) h
              λ t st. skip_blanks-Returns f t st.fits (ground (arith, turns-Steps st)))
      ]

  pub string_loop-Returns :
      (f : ℕ) (s : State) → Fits s → left s < f → Returns (Follows s) (string_loop go f s)
  unfolding string_loop left
  string_loop-Returns zero s h m = absurd (omega arith)
  string_loop-Returns (suc f) s h m =
      chain (λ r. r) s _ h
        λ t st. elim (Bool-cases (t.ch1 == b'"' || t.ch1 == 0)) [
          | inl stop ↦ rw stop (Follows-refl t st.fits)
          | inr on ↦ rw on (
              Returns-weaken (Follows (push_char t)) (Follows t) (string_loop go f (push_char t))
                (λ u. Follows-same t refl refl)
                (string_loop-Returns f (push_char t) st.fits (ground (arith, st.left_lt))))
        ]

  pub line_comment-Returns :
      (f : ℕ) (s : State) → Fits s → turns s < f → Returns (Follows s) (line_comment go f s)
  unfolding line_comment turns
  line_comment-Returns zero s h m = absurd (omega arith)
  line_comment-Returns (suc f) s h m =
      elim (Bool-cases (not (s.ch1 == b'\n') && not (s.ch1 == 0))) [
        | inr stop ↦ rw stop (Follows-refl s h)
        | inl on ↦ rw on (
            chain (λ r. r) s (λ t. line_comment go f t) h
              λ t st. line_comment-Returns f t st.fits (ground (arith, turns-Steps st)))
      ]

  pub block_comment-Returns :
      (f : ℕ) (s : State) → Fits s → turns s < f → Returns (Follows s) (block_comment go f s)
  unfolding block_comment
  block_comment-Returns zero s h m = absurd (omega arith)
  block_comment-Returns (suc f) s h m =
      elim (Bool-cases (not (s.ch1 == 0) && ltb 0 s.comment_level)) [
        | inr stop ↦ rw stop (Follows-refl s h)
        | inl on ↦ rw on (
            chain (λ r. r) s (λ t. block_comment go f (comment_mark t)) h
              λ t st.
                let (at, same, l, n) = comment_mark-same t in
                Returns-weaken (Follows (comment_mark t)) (Follows t)
                  (block_comment go f (comment_mark t)) (λ u. Follows-same t same l)
                  (block_comment-Returns f (comment_mark t) (omega (arith, st.fits, ap length same))
                    (omega (arith, turns-Steps st, turns_nonzero s on))))
      ]

  pub word_loop-Returns :
      (f : ℕ) (s : State) → Fits s → left s < f → Returns (Follows s) (word_loop go f s)
  unfolding word_loop left
  word_loop-Returns zero s h m = absurd (omega arith)
  word_loop-Returns (suc f) s h m = elim (Bool-cases (is_alfa_num s.ch2 || s.ch2 == b'_')) [
    | inr stop ↦ rw stop (Follows-refl s h)
    | inl on ↦ rw on (
        chain (λ r. r) s _ h
          λ t st.
            Returns-weaken (Follows (push_char t)) (Follows t) (word_loop go f (push_char t))
              (λ u. Follows-same t refl refl)
              (word_loop-Returns f (push_char t) st.fits (ground (arith, st.left_lt))))
  ]

  pub number_loop-Returns :
      (f : ℕ) (hex has_dp has_exp has_exp_sgn : Bool) (num : Text) (s : State)
      → Fits s
      → left s < f
      → Returns (λ r. Follows s r.1) (number_loop go f hex has_dp has_exp has_exp_sgn num s)
  unfolding number_loop is_num is_hex
  number_loop-Returns zero hex has_dp has_exp has_exp_sgn num s h m = absurd (omega arith)
  number_loop-Returns (suc f) hex has_dp has_exp has_exp_sgn num s h m =
      let num' = num ++ s.ch2 ∷ [] in
      let go_on = λ (d e g : Bool) (some_char : s.ch2 ≢ 0).
        chain (λ r. r.1) s (λ t. number_loop go f hex d e g num' t) h
          λ t st.
            number_loop-Returns f hex d e g num' t st.fits
              (omega (arith, st.left_lt (left_pos s some_char))) in
      elim (Bool-cases (is_num s.ch2 || (hex && is_hex s.ch2))) [
        | inl digit ↦ rw digit (go_on has_dp has_exp has_exp_sgn (ground arith))
        | inr no_digit ↦ rw no_digit (elim (Bool-cases (s.ch2 == b'.' && not has_dp)) [
          | inl point ↦ rw point (go_on true has_exp has_exp_sgn (ground arith))
          | inr no_point ↦ rw no_point (elim (Bool-cases (s.ch2 == b'e' || s.ch2 == b'E')) [
            | inl exponent ↦ rw exponent (go_on has_dp true has_exp_sgn (ground arith))
            | inr no_exp ↦
                rw no_exp
                  (elim (Bool-cases
                    ((s.ch2 == b'+' || s.ch2 == b'-') && has_exp && not has_exp_sgn)) [
                      | inl sign ↦ rw sign (go_on has_dp has_exp true (ground arith))
                      | inr stop ↦ rw stop (Follows-refl s h)
                    ])
          ])
        ])
      ]

  skip_prefix :
      (s : State)
      → Fits s
      → (hex : Bool)
      → Returns (Follows s) (if hex then (next_char go s >>= λ t. next_char go t) else ok s)
  skip_prefix s h false = Follows-refl s h
  skip_prefix s h true =
      chain (λ r. r) s (λ t. next_char go t) h
        λ t st.
          Returns-weaken (Steps t) (Follows t) (next_char go t) (λ u. Steps-Follows)
            (next_char-Returns go laws t st.fits)

  pub parse_number-Returns : (s : State) → Fits s → Returns (Follows s) (parse_number go s)
  unfolding parse_number left
  parse_number-Returns s h =
      let hex = s.ch1 == b'0' && (s.ch2 == b'x' || s.ch2 == b'X') in
      Returns-bind (Follows s) (Follows s) _ _ (skip_prefix s h hex) λ t ft.
        Returns-bind (λ r. Follows t r.1) (Follows s)
          (number_loop go (fuel t) hex false false false (t.ch1 ∷ []) t) _
          (number_loop-Returns (fuel t) hex false false false (t.ch1 ∷ []) t ft.fits
            (left-lt-fuel t))
          λ r k. record {
            fits = k.fits;
            text_same = k.text_same ∙ ft.text_same;
            left_le = le_trans k.left_le ft.left_le;
          }

  -- A comment reads at least its second mark.
  pub line_comment_reads :
      (f : ℕ) (s : State)
      → Fits s
      → turns s < f
      → s.ch1 ≡ b'/'
      → 0 < left s
      → Returns (λ u. Follows s u × (left u < left s)) (line_comment go f s)
  unfolding line_comment turns
  line_comment_reads zero s h m c pos = absurd (omega arith)
  line_comment_reads (suc f) s h m c pos =
      let test : (not (s.ch1 == b'\n') && not (s.ch1 == 0)) ≡ true = ground arith in
      rw test (
        Returns-bind (Steps s) (λ u. Follows s u × (left u < left s)) (next_char go s) _
          (next_char-Returns go laws s h)
          λ t st.
            Returns-weaken (Follows t) (λ u. Follows s u × (left u < left s)) (line_comment go f t)
              (λ u k.
                (Follows-trans (Steps-Follows st) k, omega (arith, st.left_lt pos, k.left_le)))
              (line_comment-Returns f t st.fits (ground (arith, turns-Steps st))))

  pub block_comment_reads :
      (f : ℕ) (s : State)
      → Fits s
      → turns s < f
      → s.ch1 ≡ b'/'
      → s.comment_level ≡ 1
      → 0 < left s
      → Returns (λ u. Follows s u × (left u < left s)) (block_comment go f s)
  unfolding block_comment
  block_comment_reads zero s h m c lv pos = absurd (omega arith)
  block_comment_reads (suc f) s h m c lv pos =
      let test : (not (s.ch1 == 0) && ltb 0 s.comment_level) ≡ true = ground arith in
      rw test (
        Returns-bind (Steps s) (λ u. Follows s u × (left u < left s)) (next_char go s) _
          (next_char-Returns go laws s h)
          λ t st.
            let (at, same, l, n) = comment_mark-same t in
            Returns-weaken (Follows (comment_mark t)) (λ u. Follows s u × (left u < left s))
              (block_comment go f (comment_mark t))
              (λ u k. (
                Follows-trans (Steps-Follows st) (Follows-same t same l k),
                omega (arith, st.left_lt pos, k.left_le),
              ))
              (block_comment-Returns f (comment_mark t) (omega (arith, st.fits, ap length same))
                (omega (arith, turns-Steps st, turns_nonzero s test))))
