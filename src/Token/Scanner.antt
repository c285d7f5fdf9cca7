-- ===== src/Token/Scanner.antt =====
-- token.go: the scanner's state, `nextChar`, and the loops of `next` and `parseNumber`. Each loop
-- takes fuel; `Token.Termination` shows that `fuel` is enough.
use jkvlang.Prelude.{
  ℕ, zero, suc, ◌+◌, ◌-◌, ◌*◌, Bool, true, false, not, ◌&&◌, ◌||◌, List, [], ◌∷◌, ◌++◌, Text, codes,
  length, drop, ltb, leb, ◌==◌, if◌then◌else◌,
}
use jkvlang.Prelude.Outcomes.{Outcome, ok, out_of_fuel, ◌>>=◌}
use jkvlang.Prelude.Golib.{Golib}
use jkvlang.Token.Kind.{Token, tok_eof, is_num, is_hex, is_alfa_num}

-- The fields of `State` that the scanner uses, with `code.LineNum` and `code.NextLineNum`.
pub record State : Type 0 where
  pub ch1 : ℕ
  pub ch2 : ℕ
  pub text : List ℕ
  pub p : ℕ
  pub current_line : Text
  pub token : Token
  pub token_string : Text
  pub comment_level : ℕ
  pub line_num : ℕ
  pub next_line_num : ℕ

-- Enough turns for every loop over the text of `s`.
unfoldable pub fuel : State → ℕ
fuel s = 2 * length s.text + 3

-- The move of `ch2` to `ch1`, with the count of lines.
unfoldable pub shift : State → State
shift s = record s {
  ch1 = s.ch2;
  next_line_num = if s.ch2 == b'\n' then s.next_line_num + 1 else s.next_line_num;
}

abbrev pub push_char : State → State
push_char s = record s { token_string = s.token_string ++ s.ch1 ∷ [] }

-- A nested opening or closing mark at `ch1`, `ch2`.
unfoldable pub comment_mark : State → State
comment_mark s =
    if s.ch1 == b'/' && s.ch2 == b'*'
    then record s { comment_level = s.comment_level + 1 }
    else if s.ch1 == b'*' && s.ch2 == b'/'
    then record s { comment_level = s.comment_level - 1 }
    else s

module _ (go : Golib) where
  open go use {decode_rune}

  -- `for s.ch2 == 13`: the next code point that is no carriage return, and the place behind it.
  unfoldable pub skip_cr : ℕ → List ℕ → ℕ → ℕ → Outcome (ℕ × ℕ)
  skip_cr zero text ch p = out_of_fuel
  skip_cr (suc f) text ch p =
      let d = decode_rune (drop p text) in
      let rest = skip_cr f text d.0 (p + d.1) in if ch == 13 then rest else ok (ch, p)

  unfoldable pub next_char : State → Outcome State
  unfolding shift
  next_char s =
      let d = decode_rune (drop s.p s.text) in
      let more = skip_cr (fuel s) s.text d.0 (s.p + d.1) >>= λ r.
      ok (record (shift s) { ch2 = r.0; p = r.1 }) in
      if leb (length s.text) s.p then ok (record (shift s) { ch2 = 0; token = tok_eof }) else more

  -- `for ch1 == '\n' || ch1 == ' ' || ch1 == '\t'`
  unfoldable pub skip_blanks : ℕ → State → Outcome State
  skip_blanks zero s = out_of_fuel
  skip_blanks (suc f) s =
      let rest = next_char s >>= λ t. skip_blanks f t in
      if s.ch1 == b'\n' || s.ch1 == b' ' || s.ch1 == b'\t' then rest else ok s

  -- The loop over a string literal, behind its opening quote.
  unfoldable pub string_loop : ℕ → State → Outcome State
  string_loop zero s = out_of_fuel
  string_loop (suc f) s = next_char s >>= λ t.
      let rest = string_loop f (push_char t) in if t.ch1 == b'"' || t.ch1 == 0 then ok t else rest

  unfoldable pub line_comment : ℕ → State → Outcome State
  line_comment zero s = out_of_fuel
  line_comment (suc f) s =
      let rest = next_char s >>= λ t. line_comment f t in
      if not (s.ch1 == b'\n') && not (s.ch1 == 0) then rest else ok s

  unfoldable pub block_comment : ℕ → State → Outcome State
  unfolding comment_mark
  block_comment zero s = out_of_fuel
  block_comment (suc f) s =
      let rest = next_char s >>= λ t. block_comment f (comment_mark t) in
      if not (s.ch1 == 0) && ltb 0 s.comment_level then rest else ok s

  -- The loop of `parseNumber`, with its flags `hex`, `hasDp`, `hasExp`, `hasExpSgn`.
  unfoldable pub number_loop :
      ℕ → (hex has_dp has_exp has_exp_sgn : Bool) → Text → State → Outcome (Text × State)
  unfolding is_num is_hex
  number_loop zero hex has_dp has_exp has_exp_sgn num s = out_of_fuel
  number_loop (suc f) hex has_dp has_exp has_exp_sgn num s =
      let num' = num ++ s.ch2 ∷ [] in
      let digit = next_char s >>= λ t. number_loop f hex has_dp has_exp has_exp_sgn num' t in
      let point = next_char s >>= λ t. number_loop f hex true has_exp has_exp_sgn num' t in
      let exponent = next_char s >>= λ t. number_loop f hex has_dp true has_exp_sgn num' t in
      let sign = next_char s >>= λ t. number_loop f hex has_dp has_exp true num' t in
      if is_num s.ch2 || (hex && is_hex s.ch2)
      then digit
      else if s.ch2 == b'.' && not has_dp
      then point
      else if s.ch2 == b'e' || s.ch2 == b'E'
      then exponent
      else if (s.ch2 == b'+' || s.ch2 == b'-') && has_exp && not has_exp_sgn
      then sign
      else ok (num, s)

  unfoldable pub parse_number : State → Outcome State
  parse_number s =
      let hex = s.ch1 == b'0' && (s.ch2 == b'x' || s.ch2 == b'X') in
      let skipped = next_char s >>= λ t. next_char t in
      (if hex then skipped else ok s) >>= λ t.
      number_loop (fuel t) hex false false false (t.ch1 ∷ []) t >>= λ r.
      ok (record r.1 { token_string = if hex then codes "0x" ++ r.0 else r.0 })

  -- The loop over an identifier, behind its first character.
  unfoldable pub word_loop : ℕ → State → Outcome State
  unfolding is_alfa_num
  word_loop zero s = out_of_fuel
  word_loop (suc f) s =
      let rest = next_char s >>= λ t. word_loop f (push_char t) in
      if is_alfa_num s.ch2 || s.ch2 == b'_' then rest else ok s
