-- ===== src/Token/Next.antt =====
-- token.go: `next`, the scanner's step to the next token, with `CollectNextLine`, `found` and
-- `Expect`. The cases of its `switch` stand in the order of the source, in four groups.
use jkvlang.Prelude.{
  ℕ, zero, suc, ◌+◌, Bool, true, false, not, ◌&&◌, ◌||◌, List, [], ◌∷◌, ◌++◌, Text, codes, text_eq,
  Option, none, some, String, length, drop, ltb, leb, ◌==◌, if◌then◌else◌,
}
use jkvlang.Prelude.Outcomes.{Outcome, ok, panic, out_of_fuel, ◌>>=◌}
use jkvlang.Prelude.Golib.{Golib}
use jkvlang.Token.Kind
use jkvlang.Token.Kind.{Token, tok_eof, token_eq, token_name, is_num, is_alfa}
use jkvlang.Token.Scanner.{
  State, fuel, next_char, skip_blanks, string_loop, line_comment, block_comment, parse_number,
  word_loop,
}

-- The `switch` on the spelling of a word.
unfoldable pub keyword : Text → Token
keyword w =
    if text_eq w (codes "func")
    then Kind.tok_func
    else if text_eq w (codes "true")
    then Kind.tok_true
    else if text_eq w (codes "false")
    then Kind.tok_false
    else if text_eq w (codes "if")
    then Kind.tok_if
    else if text_eq w (codes "for")
    then Kind.tok_for
    else if text_eq w (codes "else")
    then Kind.tok_else
    else if text_eq w (codes "var")
    then Kind.tok_var
    else if text_eq w (codes "import")
    then Kind.tok_import
    else if text_eq w (codes "package")
    then Kind.tok_package
    else if text_eq w (codes "as")
    then Kind.tok_as
    else if text_eq w (codes "const")
    then Kind.tok_const
    else if text_eq w (codes "return")
    then Kind.tok_return
    else if text_eq w (codes "min")
    then Kind.tok_min
    else if text_eq w (codes "max")
    then Kind.tok_max
    else if text_eq w (codes "abs")
    then Kind.tok_abs
    else if text_eq w (codes "type")
    then Kind.tok_type
    else if text_eq w (codes "struct")
    then Kind.tok_struct
    else if text_eq w (codes "new")
    then Kind.tok_new
    else if text_eq w (codes "loop")
    then Kind.tok_loop
    else if text_eq w (codes "continue")
    then Kind.tok_continue
    else if text_eq w (codes "break")
    then Kind.tok_break
    else if text_eq w (codes "fail")
    then Kind.tok_fail
    else if text_eq w (codes "append")
    then Kind.tok_append
    else if text_eq w (codes "call")
    then Kind.tok_syscall
    else Kind.tok_id

-- What a case of the `switch` leaves: the state, and whether it ended in `continue`.
abbrev pub Case : Type 0
Case = Outcome (State × Bool)

-- A case that sets the token, and one that sets `tokenString` too.
abbrev pub keep : Token → State → Case
keep t s = ok (record s { token = t }, false)

abbrev pub one : Token → String → State → Case
one t w s = ok (record s { token = t; token_string = codes w }, false)

-- The character behind a backslash.
unfoldable pub escape : State → Outcome State
escape b =
    if b.ch1 == b'n'
    then ok (record b { ch1 = 0x0A; token_string = codes "10" })
    else if b.ch1 == b'r'
    then ok (record b { ch1 = 0x0D; token_string = codes "13" })
    else if b.ch1 == b't'
    then ok (record b { ch1 = 0x09; token_string = codes "9" })
    else panic

module _ (go : Golib) where
  open go use {decode_rune, itoa}

  -- A case for two characters: it takes the second and sets the token and `tokenString`.
  unfoldable pub two : Token → String → State → Case
  two t w s = next_char go s >>= λ r. ok (record r { token = t; token_string = codes w }, false)

  -- `case s.ch1 == '"'`
  unfoldable pub scan_string : State → Case
  scan_string s = string_loop go (fuel s) (record s { token_string = [] }) >>= λ r.
      ok (record r { token = Kind.tok_string }, false)

  -- `case s.ch1 == '\''`
  unfoldable pub scan_char : State → Case
  unfolding escape
  scan_char s = do
    a ← next_char go s
    let a' = record a { token = Kind.tok_char }
    let escaped = next_char go a' >>= λ b. escape b
    c ← if a'.ch1 == 0x5C then escaped else ok (record a' { token_string = itoa a'.ch1 })
    d ← next_char go c
    ok (d, false)

  -- The two comments, which end in `continue`.
  unfoldable pub scan_line_comment : State → Case
  scan_line_comment s = line_comment go (fuel s) s >>= λ r. ok (r, true)

  unfoldable pub scan_block_comment : State → Case
  scan_block_comment s = do
    r ← block_comment go (fuel s) (record s { comment_level = 1 })
    t ← next_char go r
    ok (t, true)

  unfoldable pub scan_number : State → Case
  scan_number s = parse_number go s >>= λ r. ok (record r { token = Kind.tok_num }, false)

  unfoldable pub scan_word : State → Case
  unfolding keyword
  scan_word s = word_loop go (fuel s) (record s { token_string = s.ch1 ∷ [] }) >>= λ r.
      ok (record r { token = keyword r.token_string }, false)

  -- From `case isAlfa(s.ch1)` to the default.
  unfoldable pub scan_fourth : State → Case
  unfolding two
  scan_fourth s =
      if is_alfa s.ch1
      then scan_word s
      else if s.ch1 == b'['
      then one Kind.tok_lbrack "[" s
      else if s.ch1 == b']'
      then one Kind.tok_rbrack "]" s
      else if s.ch1 == b'{'
      then keep Kind.tok_lbrace s
      else if s.ch1 == b'|' && s.ch2 == b'|'
      then two Kind.tok_log_or "||" s
      else if s.ch1 == b'|'
      then one Kind.tok_or "|" s
      else if s.ch1 == b'^'
      then one Kind.tok_xor "^" s
      else if s.ch1 == b'}'
      then one Kind.tok_rbrace "}" s
      else one Kind.tok_eof "EOF" s

  -- From `case isNum(s.ch1)` to `case s.ch1 == '?'`.
  unfoldable pub scan_third : State → Case
  unfolding two scan_fourth
  scan_third s =
      if is_num s.ch1
      then scan_number s
      else if s.ch1 == b':'
      then one Kind.tok_colon ":" s
      else if s.ch1 == b';'
      then ok (record s { token = Kind.tok_semicolon; token_string = codes ";" }, true)
      else if s.ch1 == b'<' && s.ch2 == b'='
      then two Kind.tok_le "<=" s
      else if s.ch1 == b'<' && s.ch2 == b'<'
      then two Kind.tok_shl "<<" s
      else if s.ch1 == b'<'
      then one Kind.tok_lt "<" s
      else if s.ch1 == b'=' && s.ch2 == b'='
      then two Kind.tok_eq "==" s
      else if s.ch1 == b'='
      then one Kind.tok_assign "=" s
      else if s.ch1 == b'>' && s.ch2 == b'='
      then two Kind.tok_ge ">=" s
      else if s.ch1 == b'>' && s.ch2 == b'>'
      then two Kind.tok_shr ">>" s
      else if s.ch1 == b'>'
      then one Kind.tok_gt ">" s
      else if s.ch1 == b'?'
      then one Kind.tok_qmark "?" s
      else scan_fourth s

  -- From `case s.ch1 == '+' && s.ch2 == '+'` to `case s.ch1 == '/'`.
  unfoldable pub scan_second : State → Case
  unfolding two scan_third
  scan_second s =
      if s.ch1 == b'+' && s.ch2 == b'+'
      then two Kind.tok_plus_plus "++" s
      else if s.ch1 == b'+' && s.ch2 == b'='
      then two Kind.tok_plus_assign "+=" s
      else if s.ch1 == b'+'
      then one Kind.tok_plus "+" s
      else if s.ch1 == b'!'
      then keep Kind.tok_not s
      else if s.ch1 == b','
      then keep Kind.tok_comma s
      else if s.ch1 == b'-' && s.ch2 == b'-'
      then two Kind.tok_minus_minus "--" s
      else if s.ch1 == b'-' && s.ch2 == b'='
      then two Kind.tok_minus_asgn "-=" s
      else if s.ch1 == b'-'
      then keep Kind.tok_minus s
      else if s.ch1 == b'\''
      then scan_char s
      else if s.ch1 == b'.'
      then keep Kind.tok_dot s
      else if s.ch1 == b'/' && s.ch2 == b'/'
      then scan_line_comment s
      else if s.ch1 == b'/' && s.ch2 == b'*'
      then scan_block_comment s
      else if s.ch1 == b'/' && s.ch2 == b'='
      then two Kind.tok_div_asgn "/=" s
      else if s.ch1 == b'/'
      then one Kind.tok_div "/" s
      else scan_third s

  -- From `case s.ch1 == '!' && s.ch2 == '='` to `case s.ch1 == '%'`.
  unfoldable pub scan_first : State → Case
  unfolding two scan_second
  scan_first s =
      if s.ch1 == b'!' && s.ch2 == b'='
      then two Kind.tok_ne "!=" s
      else if s.ch1 == b'"'
      then scan_string s
      else if s.ch1 == b'&' && s.ch2 == b'&'
      then two Kind.tok_log_and "&&" s
      else if s.ch1 == b'&' && s.ch2 == b'^'
      then two Kind.tok_and_not "&^" s
      else if s.ch1 == b'&'
      then one Kind.tok_and "&" s
      else if s.ch1 == b'('
      then one Kind.tok_lpar "(" s
      else if s.ch1 == b')'
      then one Kind.tok_rpar ")" s
      else if s.ch1 == b'*' && s.ch2 == b'='
      then two Kind.tok_mult_asgn "*=" s
      else if s.ch1 == b'*'
      then one Kind.tok_mult "*" s
      else if s.ch1 == b'%'
      then one Kind.tok_mod "%" s
      else scan_second s

  -- One turn of the loop of `next`, up to the end of the `switch`.
  unfoldable pub turn : State → Case
  turn s = do
    a ← next_char go (record s { line_num = s.next_line_num })
    b ← skip_blanks go (fuel a) a
    scan_first (record b { token_string = b.ch1 ∷ [] })

  -- `func eof(s *State) bool`
  unfoldable pub eof : State → Bool
  eof s = ltb (length s.text) s.p

  unfoldable pub next_loop : ℕ → State → Outcome State
  unfolding eof
  next_loop zero s = out_of_fuel
  next_loop (suc f) s =
      let body = turn s >>= λ r.
      let again = next_loop f r.0 in if r.1 && token_eq r.0.token tok_eof then again else ok r.0 in
      if eof s then ok s else body

  unfoldable pub next : State → Outcome State
  unfolding next_loop
  next s = next_loop (fuel s) (record s { token = tok_eof })

  -- `s.found(tokens...)`
  unfoldable pub found : List Token → State → Outcome (Bool × State)
  found [] s = ok (false, s)
  found (t ∷ ts) s =
      let hit = next s >>= λ r. ok (true, r) in
      let rest = found ts s in if token_eq s.token t then hit else rest

  -- `Expect(s, token)`: the message of its error, if it is one.
  unfoldable pub expect : Token → State → Outcome (Option Text × State)
  expect t s =
      let message =
        codes "expected token '"
        ++ (token_name t ++ (codes "' but got '" ++ (s.token_string ++ codes "'"))) in
      let step = next s >>= λ r. ok (none, r) in
      if not (token_eq s.token t) then ok (some message, s) else step

  -- The loop of `CollectNextLine`, from byte `i` on.
  unfoldable pub line_loop : ℕ → List ℕ → ℕ → Text → Outcome Text
  line_loop zero text i line = out_of_fuel
  line_loop (suc f) text i line =
      let d = decode_rune (drop i text) in
      let i' = i + d.1 in
      let rest = line_loop f text i' (if leb b' ' d.0 then line ++ d.0 ∷ [] else line) in
      if d.0 == b'\n' || leb (length text) i' then ok line else rest

  unfoldable pub collect_next_line : State → Outcome State
  unfolding line_loop
  collect_next_line s =
      let line = s.token_string ++ s.ch2 ∷ [] in
      let rest = line_loop (fuel s) s.text s.p line >>= λ l. ok (record s { current_line = l }) in
      if s.ch2 == b'\n' then ok (record s { current_line = line }) else rest
