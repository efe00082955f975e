-- ===== src/Governance/Lexemes.antt =====
-- The lexical grammar that the header of governance/sql_tokens.py describes, as a definition of its own.
use xiaowei_agent.Contracts.Task.{is_set}
use xiaowei_agent.Governance.Characters.{
  Category, is_whitespace, is_line_end, is_ascii, is_word_char, check_char, width, widths,
}
use xiaowei_agent.Governance.Scanner.{TokenKind, SqlToken, starts_with}
use xiaowei_agent.Prelude.{
  string_eq, nat_eq, ℕ, ◌+◌, ◌≡◌, ◌≢◌, ◌⊎◌, Bool, true, false, not, ◌&&◌, none, List, [], ◌∷◌, ◌++◌,
  ◌==◌, ◌||◌,
}

-- what stands behind an opening quote, up to the closing one
pub data QuotedBody (quote : ℕ) (backslash : Bool) : List ℕ → Type 0 where
  closes : QuotedBody quote backslash (quote ∷ [])
  doubled :
      {cs : List ℕ}
      → QuotedBody quote backslash cs
      → QuotedBody quote backslash (quote ∷ quote ∷ cs)
  escaped :
      {cs : List ℕ} (c : ℕ)
      → backslash ≡ true
      → QuotedBody quote backslash cs
      → QuotedBody quote backslash (b'\\' ∷ c ∷ cs)
  plain :
      {cs : List ℕ} (c : ℕ)
      → c ≢ quote
      → (backslash && (c == b'\\')) ≡ false
      → QuotedBody quote backslash cs
      → QuotedBody quote backslash (c ∷ cs)

-- what stands behind `/*`, up to the first `*/`
pub data CommentBody : List ℕ → Type 0 where
  ends : CommentBody (b'*' ∷ b'/' ∷ [])
  goes_on :
      {cs : List ℕ} (c : ℕ)
      → ((c == b'*') && starts_with b'/' cs) ≡ false
      → CommentBody cs
      → CommentBody (c ∷ cs)

abbrev pub all_of : (ℕ → Bool) → List ℕ → Bool
all_of test [] = true
all_of test (c ∷ cs) = test c && all_of test cs

abbrev pub is_empty : List ℕ → Bool
is_empty [] = true
is_empty (c ∷ cs) = false

-- the text begins with a character that the test accepts
abbrev pub begins : (ℕ → Bool) → List ℕ → Bool
begins test [] = false
begins test (c ∷ cs) = test c

-- the character starts a comment, a quoted text or a word
abbrev pub starts_longer : ℕ → List ℕ → Bool
starts_longer c rest =
    ((c == b'-') && starts_with b'-' rest)
    || (c == b'#')
    || ((c == b'/') && starts_with b'*' rest)
    || (c == b'\'')
    || (c == b'"')
    || (c == b'`')
    || is_word_char c

-- A token of the kind, with what may follow it: a line comment goes up to the end of its line, a word as far
-- as it can, and a symbol is an ASCII character that starts nothing else.
pub data Lexeme : TokenKind → List ℕ → List ℕ → Type 0 where
  dashes :
      (cs rest : List ℕ)
      → all_of (λ c. not (is_line_end c)) cs ≡ true
      → (begins is_line_end rest || is_empty rest) ≡ true
      → Lexeme TokenKind.comment (b'-' ∷ b'-' ∷ cs) rest
  hash :
      (cs rest : List ℕ)
      → all_of (λ c. not (is_line_end c)) cs ≡ true
      → (begins is_line_end rest || is_empty rest) ≡ true
      → Lexeme TokenKind.comment (b'#' ∷ cs) rest
  block :
      (cs rest : List ℕ)
      → CommentBody cs
      → starts_with b'+' cs ≡ false
      → starts_with b'!' cs ≡ false
      → Lexeme TokenKind.comment (b'/' ∷ b'*' ∷ cs) rest
  string_lexeme :
      (quote : ℕ) (cs rest : List ℕ)
      → (quote ≡ b'\'') ⊎ (quote ≡ b'"')
      → QuotedBody quote true cs
      → starts_with quote rest ≡ false
      → Lexeme TokenKind.string (quote ∷ cs) rest
  quoted_identifier_lexeme :
      (cs rest : List ℕ)
      → QuotedBody b'`' false cs
      → starts_with b'`' rest ≡ false
      → Lexeme TokenKind.quoted_identifier (b'`' ∷ cs) rest
  word_lexeme :
      (c : ℕ) (cs rest : List ℕ)
      → all_of is_word_char (c ∷ cs) ≡ true
      → begins is_word_char rest ≡ false
      → Lexeme TokenKind.word (c ∷ cs) rest
  symbol_lexeme :
      (c : ℕ) (rest : List ℕ)
      → is_ascii c ≡ true
      → is_whitespace c ≡ false
      → starts_longer c rest ≡ false
      → Lexeme TokenKind.symbol (c ∷ []) rest

-- The text from the byte on is blanks and tokens, each token over its bytes, and no character is one that
-- is refused.
pub data Tiles (category : ℕ → Category) : ℕ → List ℕ → List SqlToken → Type 0 where
  finished : {byte : ℕ} → Tiles category byte [] []
  blank :
      {byte : ℕ} {cs : List ℕ} {tokens : List SqlToken} (c : ℕ)
      → is_whitespace c ≡ true
      → check_char category c ≡ none
      → Tiles category (byte + width c) cs tokens
      → Tiles category byte (c ∷ cs) tokens
  covers :
      {byte : ℕ} {tokens : List SqlToken} (kind : TokenKind) (taken rest text : List ℕ) (end_ : ℕ)
      → text ≡ taken ++ rest
      → end_ ≡ byte + widths taken
      → Lexeme kind taken rest
      → all_of (λ c. not (is_set (check_char category c))) taken ≡ true
      → Tiles category end_ rest tokens
      → Tiles category byte text
          (record { kind = kind; start_byte = byte; end_byte = end_ } ∷ tokens)
