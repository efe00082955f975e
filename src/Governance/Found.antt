-- ===== src/Governance/Found.antt =====
-- The run of the scanner on a text of the lexical grammar.
use xiaowei_agent.Governance.Characters.{Category, widths}
use xiaowei_agent.Governance.Lexemes.{
  Lexeme, Tiles, dashes, hash, block, string_lexeme, quoted_identifier_lexeme, word_lexeme,
  symbol_lexeme, finished, blank, covers,
}
use xiaowei_agent.Governance.Parses.{
  IsScanned, dashes-IsScanned, hash-IsScanned, block-IsScanned, string-IsScanned,
  identifier-IsScanned, word-IsScanned, symbol-IsScanned,
}
use xiaowei_agent.Governance.Runs.{length-append}
use xiaowei_agent.Governance.Scanner.{run, TokenKind, SqlToken, append_token, scanned}
use xiaowei_agent.Governance.Subscans.{all_clean}
use xiaowei_agent.Prelude.{
  string_eq, nat_eq, length, ℕ, zero, suc, ◌+◌, ◌<◌, ◌≡◌, refl, ap, ◌∙◌, true, some, List, ◌∷◌,
  ◌++◌, arith,
}

module _ (category : ℕ → Category) where
  Lexeme-IsScanned :
      (kind : TokenKind) (taken rest : List ℕ) (byte end_ : ℕ)
      → Lexeme kind taken rest
      → all_clean category taken ≡ true
      → end_ ≡ byte + widths taken
      → IsScanned category kind taken rest byte end_
  Lexeme-IsScanned _ _ rest byte end_ (dashes cs _ h after_) =
      dashes-IsScanned category cs rest byte end_ h after_
  Lexeme-IsScanned _ _ rest byte end_ (hash cs _ h after_) =
      hash-IsScanned category cs rest byte end_ h after_
  Lexeme-IsScanned _ _ rest byte end_ (block cs _ body p q) =
      block-IsScanned category cs rest byte end_ body p q
  Lexeme-IsScanned _ _ rest byte end_ (string_lexeme quote cs _ q body stop) =
      string-IsScanned category quote cs rest byte end_ q body stop
  Lexeme-IsScanned _ _ rest byte end_ (quoted_identifier_lexeme cs _ body stop) =
      identifier-IsScanned category cs rest byte end_ body stop
  Lexeme-IsScanned _ _ rest byte end_ (word_lexeme c cs _ h after_) =
      word-IsScanned category c cs rest byte end_ h after_
  Lexeme-IsScanned _ _ rest byte end_ (symbol_lexeme c _ h visible_ alone) =
      symbol-IsScanned category c rest byte end_ h visible_ alone

  -- a round that takes a token, and the rounds that follow
  run-token :
      (fuel : ℕ) (kind : TokenKind) (taken rest : List ℕ) (byte end_ : ℕ) (tokens : List SqlToken)
      → IsScanned category kind taken rest byte end_
      → run category fuel rest end_ ≡ some (scanned tokens)
      → run category (suc fuel) (taken ++ rest) byte
        ≡ some (scanned (record { kind = kind; start_byte = byte; end_byte = end_ } ∷ tokens))
  unfolding run append_token
  run-token fuel kind taken rest byte end_ tokens h later_ = rw h.is_taken (
      rw (run, h.visible)
        (rw (ap (λ r. r.1) h.scans) (rw (ap (λ r. r.0) h.scans) (rw later_ refl))))

  -- The scanner finds the tokens of a text of the grammar.
  pub run_complete :
      (fuel : ℕ) {byte : ℕ} {text : List ℕ} {tokens : List SqlToken}
      → length text < fuel
      → Tiles category byte text tokens
      → run category fuel text byte ≡ some (scanned tokens)
  unfolding run
  run_complete zero short h = absurd (omega arith)
  run_complete (suc fuel) short finished = refl
  run_complete (suc fuel) short (blank {byte} {cs} c white ok_ rest) =
      rw (run, white, ok_) (run_complete fuel (omega arith) rest)
  run_complete (suc fuel) short
        (covers {byte} kind taken rest text end_ split moved lexeme clean tail) =
      let s = Lexeme-IsScanned kind taken rest byte end_ lexeme clean moved in
      let size : length text ≡ suc (length s.others) + length rest =
        ap length (split ∙ ap (λ xs. xs ++ rest) s.is_taken)
        ∙ length-append category (s.first ∷ s.others) rest in
      rw split (
        run-token fuel kind taken rest byte end_ _ s (run_complete fuel (omega (arith, size)) tail))
