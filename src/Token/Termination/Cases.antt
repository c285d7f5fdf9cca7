-- ===== src/Token/Termination/Cases.antt =====
-- Every case of the `switch` ends, and so do `turn` and `next`.
use mathlib.Core.Bool.{and-eq-true_iff}
use jkvlang.Prelude.{
  ℕ, zero, suc, ◌≤◌, ◌<◌, ◌≡◌, refl, ap, Bool, true, false, ◌&&◌, length, ◌==◌, if◌then◌else◌,
  Bool-cases, arith, inl, inr, codes, ◌∷◌, [], String,
}
use jkvlang.Prelude.Outcomes.{
  Outcome, ok, ◌>>=◌, Returns, Ends, Returns-Ends-bind, Ends-bind, Ends-weaken,
}
use jkvlang.Prelude.Golib.{Golib, DecodesRunes}
use jkvlang.Token.Kind
use jkvlang.Token.Kind.{Token, tok_eof, token_eq, is_num, is_alfa}
use jkvlang.Token.Scanner.{State, fuel, next_char, skip_blanks, line_comment, block_comment}
use jkvlang.Token.Next.{
  Case, keep, one, two, escape, scan_string, scan_char, scan_line_comment, scan_block_comment,
  scan_number, scan_word, scan_first, scan_second, scan_third, scan_fourth, turn, eof, next_loop,
  next,
}
use jkvlang.Token.Termination.Chars.{
  Fits, left, Follows, Steps, left_pos, turns-lt-fuel, left-lt-fuel, next_char-Returns,
}
use jkvlang.Token.Termination.Loops.{
  Follows-refl, Follows-trans, Steps-Follows, skip_blanks-Returns, string_loop-Returns,
  line_comment_reads, block_comment_reads, word_loop-Returns, parse_number-Returns,
}

-- A case leaves a later state; one that goes round again with `TOK_EOF` has read something.
pub record Done (s : State) (r : State × Bool) : Type 0 where
  pub later : Follows s r.0
  pub reads : r.1 ≡ true → token_eq r.0.token tok_eof ≡ true → left r.0 < left s

abbrev pub CaseEnds : State → Case → Type 0
CaseEnds s = Ends (Done s)

-- A case that ends the turn.
done : {s t : State} → Follows s t → Done s (t, false)
done k = record { later = k; reads = λ e. cc }

-- A state with the same text, place and next character.
here : (s t : State) → Fits s → t.text ≡ s.text → t.p ≡ s.p → t.ch2 ≡ s.ch2 → Follows s t
unfolding left
here s t h e a c = record {
  fits = omega (arith, ap length e);
  text_same = e;
  left_le = omega (arith, ap length e, ap {B = ℕ} (λ (n : ℕ). if n == 0 then 0 else 1) c);
}

if-Ends :
    (s : State) (b : Bool) (x y : Case)
    → (b ≡ true → CaseEnds s x)
    → CaseEnds s y
    → CaseEnds s (if b then x else y)
if-Ends s true x y hx hy = hx refl
if-Ends s false x y hx hy = hy

keep-Ends : (t : Token) (s : State) → Fits s → CaseEnds s (keep t s)
keep-Ends t s h = done (here s _ h refl refl refl)

one-Ends : (t : Token) (w : String) (s : State) → Fits s → CaseEnds s (one t w s)
one-Ends t w s h = done (here s _ h refl refl refl)

escape-Ends : (b : State) → Fits b → Ends (Follows b) (escape b)
unfolding escape
escape-Ends b h = elim (Bool-cases (b.ch1 == b'n')) [
  | inl n ↦ rw n (here b _ h refl refl refl)
  | inr no_n ↦ rw no_n (elim (Bool-cases (b.ch1 == b'r')) [
    | inl r ↦ rw r (here b _ h refl refl refl)
    | inr no_r ↦ rw no_r (elim (Bool-cases (b.ch1 == b't')) [
      | inl t ↦ rw t (here b _ h refl refl refl)
      | inr no_t ↦ rw no_t tt
    ])
  ])
]

module _ (go : Golib) (laws : DecodesRunes go) where
  two-Ends : (t : Token) (w : String) (s : State) → Fits s → CaseEnds s (two go t w s)
  unfolding two
  two-Ends t w s h =
      Returns-Ends-bind (Steps s) (Done s) (next_char go s) _ (next_char-Returns go laws s h)
        λ r st. done (Follows-trans (Steps-Follows st) (here r _ st.fits refl refl refl))

  -- A loop within its fuel, and a change of the token behind it.
  loop-Ends :
      (s s' : State) (loop : Outcome State) (f : State → State)
      → Follows s s'
      → Returns (Follows s') loop
      → ((r : State) → Follows s' r → Follows r (f r))
      → CaseEnds s (loop >>= λ r. ok (f r, false))
  loop-Ends s s' loop f k h g =
      Returns-Ends-bind (Follows s') (Done s) loop _ h
        λ r l. done (Follows-trans k (Follows-trans l (g r l)))

  scan_string-Ends : (s : State) → Fits s → CaseEnds s (scan_string go s)
  unfolding scan_string fuel
  scan_string-Ends s h =
      let s' = record s { token_string = [] } in
      loop-Ends s s' _ _ (here s s' h refl refl refl)
        (string_loop-Returns go laws (fuel s) s' h (left-lt-fuel s'))
        λ r l. here r _ l.fits refl refl refl

  scan_word-Ends : (s : State) → Fits s → CaseEnds s (scan_word go s)
  unfolding scan_word fuel
  scan_word-Ends s h =
      let s' = record s { token_string = s.ch1 ∷ [] } in
      loop-Ends s s' _ _ (here s s' h refl refl refl)
        (word_loop-Returns go laws (fuel s) s' h (left-lt-fuel s'))
        λ r l. here r _ l.fits refl refl refl

  scan_number-Ends : (s : State) → Fits s → CaseEnds s (scan_number go s)
  unfolding scan_number
  scan_number-Ends s h =
      loop-Ends s s _ _ (here s s h refl refl refl) (parse_number-Returns go laws s h)
        λ r l. here r _ l.fits refl refl refl

  scan_line_comment-Ends :
      (s : State)
      → Fits s
      → (s.ch1 == b'/' && s.ch2 == b'/') ≡ true
      → CaseEnds s (scan_line_comment go s)
  unfolding scan_line_comment
  scan_line_comment-Ends s h e =
      Returns-Ends-bind (λ u. Follows s u × (left u < left s)) (Done s) (line_comment go (fuel s) s)
        _
        (line_comment_reads go laws (fuel s) s h (turns-lt-fuel s) (ground arith)
          (left_pos s (ground arith)))
        λ r (k, lt). record { later = k; reads = λ a b. lt }

  scan_block_comment-Ends :
      (s : State)
      → Fits s
      → (s.ch1 == b'/' && s.ch2 == b'*') ≡ true
      → CaseEnds s (scan_block_comment go s)
  unfolding scan_block_comment left fuel
  scan_block_comment-Ends s h e =
      let s' = record s { comment_level = 1 } in
      Returns-Ends-bind (λ u. Follows s' u × (left u < left s')) (Done s)
        (block_comment go (fuel s) s') _
        (block_comment_reads go laws (fuel s) s' h (turns-lt-fuel s') (ground arith) refl
          (left_pos s' (ground arith)))
        λ r (k, lt).
          Returns-Ends-bind (Steps r) (Done s) (next_char go r) _
            (next_char-Returns go laws r k.fits)
            λ t st. record {
              later =
                  Follows-trans (here s s' h refl refl refl) (Follows-trans k (Steps-Follows st));
              reads = λ a b. omega (arith, st.left_le, lt);
            }

  char_body-Ends :
      (a : State)
      → Fits a
      → Ends (Follows a) (
          if a.ch1 == 0x5C
          then (next_char go (record a { token = Kind.tok_char }) >>= λ b. escape b)
          else ok (record a { token = Kind.tok_char; token_string = go.itoa a.ch1 }))
  char_body-Ends a h = elim (Bool-cases (a.ch1 == 0x5C)) [
    | inr plain ↦ rw plain (here a _ h refl refl refl)
    | inl back ↦ rw back (
        let a' = record a { token = Kind.tok_char } in
        Returns-Ends-bind (Steps a') (Follows a) (next_char go a') (λ b. escape b)
          (next_char-Returns go laws a' h)
          λ b st.
            Ends-weaken (Follows b) (Follows a) (escape b)
              (λ c k.
                Follows-trans (here a a' h refl refl refl) (Follows-trans (Steps-Follows st) k))
              (escape-Ends b st.fits))
  ]

  scan_char-Ends : (s : State) → Fits s → CaseEnds s (scan_char go s)
  unfolding scan_char
  scan_char-Ends s h =
      Returns-Ends-bind (Steps s) (Done s) (next_char go s) _ (next_char-Returns go laws s h)
        λ a st.
          let a' = record a { token = Kind.tok_char } in
          Ends-bind (Follows a) (Done s) _ _ (char_body-Ends a st.fits) λ c k.
            Returns-Ends-bind (Steps c) (Done s) (next_char go c) _
              (next_char-Returns go laws c k.fits)
              λ d sd. done (Follows-trans (Steps-Follows st) (Follows-trans k (Steps-Follows sd)))

  semicolon-Ends :
      (s : State)
      → Fits s
      → CaseEnds s (ok (record s { token = Kind.tok_semicolon; token_string = codes ";" }, true))
  unfolding token_eq
  semicolon-Ends s h = record { later = here s _ h refl refl refl; reads = λ a b. cc }

  scan_fourth-Ends : (s : State) → Fits s → CaseEnds s (scan_fourth go s)
  unfolding scan_fourth
  scan_fourth-Ends s h =
      if-Ends s (is_alfa s.ch1) _ _ (λ e. scan_word-Ends s h)
        (if-Ends s (s.ch1 == b'[') _ _ (λ e. one-Ends Kind.tok_lbrack "[" s h)
          (if-Ends s (s.ch1 == b']') _ _ (λ e. one-Ends Kind.tok_rbrack "]" s h)
            (if-Ends s (s.ch1 == b'{') _ _ (λ e. keep-Ends Kind.tok_lbrace s h)
              (if-Ends s (s.ch1 == b'|' && s.ch2 == b'|') _ _
                (λ e. two-Ends Kind.tok_log_or "||" s h)
                (if-Ends s (s.ch1 == b'|') _ _ (λ e. one-Ends Kind.tok_or "|" s h)
                  (if-Ends s (s.ch1 == b'^') _ _ (λ e. one-Ends Kind.tok_xor "^" s h)
                    (if-Ends s (s.ch1 == b'}') _ _ (λ e. one-Ends Kind.tok_rbrace "}" s h)
                      (one-Ends Kind.tok_eof "EOF" s h))))))))

  scan_third-Ends : (s : State) → Fits s → CaseEnds s (scan_third go s)
  unfolding scan_third
  scan_third-Ends s h =
      if-Ends s (is_num s.ch1) _ _ (λ e. scan_number-Ends s h)
        (if-Ends s (s.ch1 == b':') _ _ (λ e. one-Ends Kind.tok_colon ":" s h)
          (if-Ends s (s.ch1 == b';') _ _ (λ e. semicolon-Ends s h)
            (if-Ends s (s.ch1 == b'<' && s.ch2 == b'=') _ _ (λ e. two-Ends Kind.tok_le "<=" s h)
              (if-Ends s (s.ch1 == b'<' && s.ch2 == b'<') _ _ (λ e. two-Ends Kind.tok_shl "<<" s h)
                (if-Ends s (s.ch1 == b'<') _ _ (λ e. one-Ends Kind.tok_lt "<" s h)
                  (if-Ends s (s.ch1 == b'=' && s.ch2 == b'=') _ _
                    (λ e. two-Ends Kind.tok_eq "==" s h)
                    (if-Ends s (s.ch1 == b'=') _ _ (λ e. one-Ends Kind.tok_assign "=" s h)
                      (if-Ends s (s.ch1 == b'>' && s.ch2 == b'=') _ _
                        (λ e. two-Ends Kind.tok_ge ">=" s h)
                        (if-Ends s (s.ch1 == b'>' && s.ch2 == b'>') _ _
                          (λ e. two-Ends Kind.tok_shr ">>" s h)
                          (if-Ends s (s.ch1 == b'>') _ _ (λ e. one-Ends Kind.tok_gt ">" s h)
                            (if-Ends s (s.ch1 == b'?') _ _ (λ e. one-Ends Kind.tok_qmark "?" s h)
                              (scan_fourth-Ends s h))))))))))))

  scan_second-Ends : (s : State) → Fits s → CaseEnds s (scan_second go s)
  unfolding scan_second
  scan_second-Ends s h =
      if-Ends s (s.ch1 == b'+' && s.ch2 == b'+') _ _ (λ e. two-Ends Kind.tok_plus_plus "++" s h)
        (if-Ends s (s.ch1 == b'+' && s.ch2 == b'=') _ _
          (λ e. two-Ends Kind.tok_plus_assign "+=" s h)
          (if-Ends s (s.ch1 == b'+') _ _ (λ e. one-Ends Kind.tok_plus "+" s h)
            (if-Ends s (s.ch1 == b'!') _ _ (λ e. keep-Ends Kind.tok_not s h)
              (if-Ends s (s.ch1 == b',') _ _ (λ e. keep-Ends Kind.tok_comma s h)
                (if-Ends s (s.ch1 == b'-' && s.ch2 == b'-') _ _
                  (λ e. two-Ends Kind.tok_minus_minus "--" s h)
                  (if-Ends s (s.ch1 == b'-' && s.ch2 == b'=') _ _
                    (λ e. two-Ends Kind.tok_minus_asgn "-=" s h)
                    (if-Ends s (s.ch1 == b'-') _ _ (λ e. keep-Ends Kind.tok_minus s h)
                      (if-Ends s (s.ch1 == b'\'') _ _ (λ e. scan_char-Ends s h)
                        (if-Ends s (s.ch1 == b'.') _ _ (λ e. keep-Ends Kind.tok_dot s h)
                          (if-Ends s (s.ch1 == b'/' && s.ch2 == b'/') _ _
                            (λ e. scan_line_comment-Ends s h e)
                            (if-Ends s (s.ch1 == b'/' && s.ch2 == b'*') _ _
                              (λ e. scan_block_comment-Ends s h e)
                              (if-Ends s (s.ch1 == b'/' && s.ch2 == b'=') _ _
                                (λ e. two-Ends Kind.tok_div_asgn "/=" s h)
                                (if-Ends s (s.ch1 == b'/') _ _ (λ e. one-Ends Kind.tok_div "/" s h)
                                  (scan_third-Ends s h))))))))))))))

  scan_first-Ends : (s : State) → Fits s → CaseEnds s (scan_first go s)
  unfolding scan_first
  scan_first-Ends s h =
      if-Ends s (s.ch1 == b'!' && s.ch2 == b'=') _ _ (λ e. two-Ends Kind.tok_ne "!=" s h)
        (if-Ends s (s.ch1 == b'"') _ _ (λ e. scan_string-Ends s h)
          (if-Ends s (s.ch1 == b'&' && s.ch2 == b'&') _ _ (λ e. two-Ends Kind.tok_log_and "&&" s h)
            (if-Ends s (s.ch1 == b'&' && s.ch2 == b'^') _ _
              (λ e. two-Ends Kind.tok_and_not "&^" s h)
              (if-Ends s (s.ch1 == b'&') _ _ (λ e. one-Ends Kind.tok_and "&" s h)
                (if-Ends s (s.ch1 == b'(') _ _ (λ e. one-Ends Kind.tok_lpar "(" s h)
                  (if-Ends s (s.ch1 == b')') _ _ (λ e. one-Ends Kind.tok_rpar ")" s h)
                    (if-Ends s (s.ch1 == b'*' && s.ch2 == b'=') _ _
                      (λ e. two-Ends Kind.tok_mult_asgn "*=" s h)
                      (if-Ends s (s.ch1 == b'*') _ _ (λ e. one-Ends Kind.tok_mult "*" s h)
                        (if-Ends s (s.ch1 == b'%') _ _ (λ e. one-Ends Kind.tok_mod "%" s h)
                          (scan_second-Ends s h))))))))))

  -- The state behind `nextChar` and the blanks.
  turn-Ends : (s : State) → Fits s → CaseEnds s (turn go s)
  unfolding turn
  turn-Ends s h =
      let s' = record s { line_num = s.next_line_num } in
      Returns-Ends-bind (Steps s') (Done s) (next_char go s') _ (next_char-Returns go laws s' h)
        λ a st.
          Returns-Ends-bind (Follows a) (Done s) (skip_blanks go (fuel a) a) _
            (skip_blanks-Returns go laws (fuel a) a st.fits (turns-lt-fuel a))
            λ b k.
              let b' = record b { token_string = b.ch1 ∷ [] } in
              let before = Follows-trans (here s s' h refl refl refl) (
                Follows-trans (Steps-Follows st)
                  (Follows-trans k (here b b' k.fits refl refl refl))) in
              Ends-weaken (Done b') (Done s) (scan_first go b')
                (λ r d. record {
                  later = Follows-trans before d.later;
                  reads = λ x y. omega (arith, d.reads x y, before.left_le);
                })
                (scan_first-Ends b' k.fits)

  next_loop-Ends : (f : ℕ) (s : State) → Fits s → left s < f → Ends (Follows s) (next_loop go f s)
  unfolding next_loop
  next_loop-Ends zero s h m = absurd (omega arith)
  next_loop-Ends (suc f) s h m = elim (Bool-cases (eof go s)) [
    | inl end ↦ rw end (Follows-refl s h)
    | inr more ↦ rw more (
        Ends-bind (Done s) (Follows s) (turn go s) _ (turn-Ends s h) λ r d.
          elim (Bool-cases (r.1 && token_eq r.0.token tok_eof)) [
            | inr stop ↦ rw stop d.later
            | inl again ↦ rw again (
                let (x, y) = (and-eq-true_iff r.1 (token_eq r.0.token tok_eof)).0 again in
                Ends-weaken (Follows r.0) (Follows s) (next_loop go f r.0)
                  (λ u. Follows-trans d.later)
                  (next_loop-Ends f r.0 d.later.fits (omega (arith, d.reads x y))))
          ])
  ]

  -- If `DecodeRune` takes at least one byte and none behind the end, `next` ends on every text, from
  -- every place inside it or at its end: no loop runs out of fuel. What it returns stands at a place inside
  -- the text or at its end, of the same text, and with no more left to be read. (It may panic, at
  -- a character literal with another escape than those for 10, 13 and 9.)
  pub next-Ends :
      (s : State)
      → s.p ≤ length s.text
      → Ends (λ t. (t.p ≤ length t.text) × (t.text ≡ s.text) × (left t ≤ left s)) (next go s)
  unfolding next left
  next-Ends s h =
      let s' = record s { token = tok_eof } in
      Ends-weaken (Follows s') _ (next_loop go (fuel s) s')
        (λ t k.
          let l = Follows-trans (here s s' h refl refl refl) k in (l.fits, l.text_same, l.left_le))
        (next_loop-Ends (fuel s) s' h (left-lt-fuel s))
