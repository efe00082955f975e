-- ===== src/Governance/Scanner.antt =====
-- `_Scanner` of governance/sql_tokens.py. The text from `_pos` on is a list, so that `_peek` looks at its
-- head and `_advance` takes it; a scan of a part gives back what is left and the byte position.
use xiaowei_agent.Governance.Characters.{
  Category, TokenScanReason, is_whitespace, is_line_end, is_ascii, is_word_char, check_char, width,
}
use xiaowei_agent.Prelude.{
  string_eq, nat_eq, if◌then◌else◌, ◌==◌, ℕ, zero, suc, ◌+◌, Bool, true, false, ◌&&◌, ◌||◌, none,
  some, List, [], ◌∷◌, Option,
}

pub data TokenKind : Type 0 where
  word quoted_identifier string symbol comment : TokenKind

pub record SqlToken : Type 0 where
  pub kind : TokenKind
  pub start_byte : ℕ
  pub end_byte : ℕ

-- what is left of the text, and the byte position there
pub record Position : Type 0 where
  pub rest : List ℕ
  pub byte : ℕ

pub data Scan {ℓ} (A : Type ℓ) : Type ℓ where
  scanned : A → Scan A
  refused : TokenScanReason → Scan A

-- `self._peek()` is the character `c`
unfoldable pub starts_with : ℕ → List ℕ → Bool
starts_with c [] = false
starts_with c (d ∷ ds) = d == c

module _ (category : ℕ → Category) where
  -- a character is checked before the scan goes on behind it
  unfoldable pub after_check {ℓ} : {A : Type ℓ} → ℕ → Scan A → Scan A
  after_check c next = elim (check_char category c) [ none ↦ next | some reason ↦ refused reason ]

  unfoldable pub line_comment : List ℕ → ℕ → Scan Position
  line_comment [] byte = scanned (record { rest = []; byte = byte })
  line_comment (c ∷ cs) byte =
      let next = line_comment cs (byte + width c) in
      if is_line_end c then scanned (record { rest = c ∷ cs; byte = byte }) else after_check c next

  -- the loop of `_block_comment`
  unfoldable pub block_comment_rest : List ℕ → ℕ → Scan Position
  block_comment_rest [] byte = refused TokenScanReason.unterminated
  block_comment_rest (c ∷ []) byte = after_check c (refused TokenScanReason.unterminated)
  block_comment_rest (c ∷ d ∷ ds) byte =
      let next = block_comment_rest (d ∷ ds) (byte + width c) in
      if (c == b'*') && (d == b'/')
      then after_check c
          (after_check d (scanned (record { rest = ds; byte = byte + width c + width d })))
      else after_check c next

  -- `/`, `*` and then neither `+` nor `!`
  unfoldable pub block_comment : List ℕ → ℕ → Scan Position
  block_comment (c ∷ d ∷ ds) byte =
      if starts_with b'+' ds || starts_with b'!' ds
      then refused TokenScanReason.hint_comment
      else after_check c (after_check d (block_comment_rest ds (byte + width c + width d)))
  block_comment _ byte = refused TokenScanReason.unterminated

  -- the loop of `_quoted`
  unfoldable pub quoted_rest : ℕ → Bool → List ℕ → ℕ → Scan Position
  quoted_rest quote backslash [] byte = refused TokenScanReason.unterminated
  quoted_rest quote backslash (c ∷ []) byte = after_check c (
      if backslash && (c == b'\\')
      then refused TokenScanReason.unterminated
      else if c == quote
      then scanned (record { rest = []; byte = byte + width c })
      else refused TokenScanReason.unterminated)
  quoted_rest quote backslash (c ∷ d ∷ ds) byte =
      let skip_both = quoted_rest quote backslash ds (byte + width c + width d) in
      let skip_one = quoted_rest quote backslash (d ∷ ds) (byte + width c) in
      after_check c (
        if backslash && (c == b'\\')
        then after_check d skip_both
        else if c == quote
        then (if d == quote
            then after_check d skip_both
            else scanned (record { rest = d ∷ ds; byte = byte + width c }))
        else skip_one)

  unfoldable pub quoted : ℕ → Bool → List ℕ → ℕ → Scan Position
  quoted quote backslash [] byte = refused TokenScanReason.unterminated
  quoted quote backslash (c ∷ cs) byte =
      after_check c (quoted_rest quote backslash cs (byte + width c))

  -- `while _is_word_char(self._peek()): self._advance()`
  unfoldable pub word_rest : List ℕ → ℕ → Scan Position
  word_rest [] byte = scanned (record { rest = []; byte = byte })
  word_rest (c ∷ cs) byte =
      let next = word_rest cs (byte + width c) in
      if is_word_char c then after_check c next else scanned (record { rest = c ∷ cs; byte = byte })

  unfoldable pub symbol_char : List ℕ → ℕ → Scan Position
  symbol_char [] byte = scanned (record { rest = []; byte = byte })
  symbol_char (c ∷ cs) byte = after_check c (scanned (record { rest = cs; byte = byte + width c }))

  -- one round of `run` that does not skip a blank: the kind of the token, and the scan of it
  unfoldable pub scan_token : ℕ → List ℕ → ℕ → TokenKind × Scan Position
  scan_token c cs byte =
      if ((c == b'-') && starts_with b'-' cs) || (c == b'#')
      then (TokenKind.comment, line_comment (c ∷ cs) byte)
      else if (c == b'/') && starts_with b'*' cs
      then (TokenKind.comment, block_comment (c ∷ cs) byte)
      else if (c == b'\'') || (c == b'"')
      then (TokenKind.string, quoted c true (c ∷ cs) byte)
      else if c == b'`'
      then (TokenKind.quoted_identifier, quoted c false (c ∷ cs) byte)
      else if is_word_char c
      then (TokenKind.word, word_rest (c ∷ cs) byte)
      else if is_ascii c
      then (TokenKind.symbol, symbol_char (c ∷ cs) byte)
      else (TokenKind.symbol, after_check c (refused TokenScanReason.ambiguous_punctuation))

  -- `self.tokens.append(...)` and the rounds that follow; `none` is a run without enough fuel
  unfoldable pub append_token :
      TokenKind → ℕ → ℕ → Option (Scan (List SqlToken)) → Option (Scan (List SqlToken))
  append_token kind start end_ none = none
  append_token kind start end_ (some (refused reason)) = some (refused reason)
  append_token kind start end_ (some (scanned tokens)) =
      some (scanned (record { kind = kind; start_byte = start; end_byte = end_ } ∷ tokens))

  unfoldable pub run : ℕ → List ℕ → ℕ → Option (Scan (List SqlToken))
  run zero rest byte = none
  run (suc fuel) [] byte = some (scanned [])
  run (suc fuel) (c ∷ cs) byte = elim (is_whitespace c) [
    | true ↦ elim (check_char category c) [
      | some reason ↦ some (refused reason)
      | none ↦ run fuel cs (byte + width c)
    ]
    | false ↦
        let (kind, result) = scan_token c cs byte in
        elim result [
          | scanned p ↦ append_token kind byte p.byte (run fuel p.rest p.byte)
          | refused reason ↦ some (refused reason)
        ]
  ]
