-- ===== src/Governance/Parses.antt =====
-- The scanner on a text of the lexical grammar: each token is scanned as the grammar has it.
use xiaowei_agent.Governance.Characters.{
  Category, is_whitespace, is_line_end, is_ascii, is_ascii_alnum, is_word_char, width, widths,
}
use xiaowei_agent.Governance.Complete.{
  clean-cons, after_check-clean, line_comment_complete, word_rest_complete,
  block_comment_rest_complete, quoted_rest_complete,
}
use xiaowei_agent.Governance.Lexemes.{
  begins, QuotedBody, CommentBody, all_of, is_empty, starts_longer,
}
use xiaowei_agent.Governance.Scanner.{
  TokenKind, starts_with, block_comment, quoted, symbol_char, scan_token, scanned,
}
use xiaowei_agent.Governance.Subscans.{all_clean, CommentBody-starts}
use xiaowei_agent.Prelude.{
  string_eq, nat_eq, if◌then◌else◌, ◌==◌, ℕ, ◌+◌, ◌≡◌, refl, ap, ◌∙◌, ◌⊎◌, Bool, true, false, not,
  ◌&&◌, ◌||◌, List, [], ◌∷◌, ◌++◌, arith,
}

-- a round takes the token, with what is left behind it
pub record IsScanned (category : ℕ → Category) (kind : TokenKind) (taken rest : List ℕ)
    (byte end_ : ℕ) : Type 0 where
  pub first : ℕ
  pub others : List ℕ
  pub is_taken : taken ≡ first ∷ others
  pub visible : is_whitespace first ≡ false
  pub scans :
      scan_token category first (others ++ rest) byte
      ≡ (kind, scanned (record { rest = rest; byte = end_ }))

module _ (category : ℕ → Category) where
  pub dashes-IsScanned :
      (cs rest : List ℕ) (byte end_ : ℕ)
      → all_of (λ c. not (is_line_end c)) cs ≡ true
      → (begins is_line_end rest || is_empty rest) ≡ true
      → all_clean category (b'-' ∷ b'-' ∷ cs) ≡ true
      → end_ ≡ byte + widths (b'-' ∷ b'-' ∷ cs)
      → IsScanned category TokenKind.comment (b'-' ∷ b'-' ∷ cs) rest byte end_
  unfolding scan_token starts_with is_whitespace is_line_end
  dashes-IsScanned cs rest byte end_ inside after_ clean moved = record {
    first = b'-';
    others = b'-' ∷ cs;
    is_taken = refl;
    visible = refl;
    scans =
        ap (λ r. (TokenKind.comment, r))
          (line_comment_complete category (b'-' ∷ b'-' ∷ cs) rest byte end_ inside after_ clean
            moved);
  }

  pub hash-IsScanned :
      (cs rest : List ℕ) (byte end_ : ℕ)
      → all_of (λ c. not (is_line_end c)) cs ≡ true
      → (begins is_line_end rest || is_empty rest) ≡ true
      → all_clean category (b'#' ∷ cs) ≡ true
      → end_ ≡ byte + widths (b'#' ∷ cs)
      → IsScanned category TokenKind.comment (b'#' ∷ cs) rest byte end_
  unfolding scan_token starts_with is_whitespace is_line_end
  hash-IsScanned cs rest byte end_ inside after_ clean moved = record {
    first = b'#';
    others = cs;
    is_taken = refl;
    visible = refl;
    scans =
        ap (λ r. (TokenKind.comment, r))
          (line_comment_complete category (b'#' ∷ cs) rest byte end_ inside after_ clean moved);
  }

  pub block-IsScanned :
      (cs rest : List ℕ) (byte end_ : ℕ)
      → CommentBody cs
      → starts_with b'+' cs ≡ false
      → starts_with b'!' cs ≡ false
      → all_clean category (b'/' ∷ b'*' ∷ cs) ≡ true
      → end_ ≡ byte + widths (b'/' ∷ b'*' ∷ cs)
      → IsScanned category TokenKind.comment (b'/' ∷ b'*' ∷ cs) rest byte end_
  unfolding scan_token starts_with is_whitespace block_comment widths
  block-IsScanned cs rest byte end_ body plus bang clean moved =
      let (slash, later_) = clean-cons category b'/' (b'*' ∷ cs) clean in
      let (star, others) = clean-cons category b'*' cs later_ in
      let p : starts_with b'+' (cs ++ rest) ≡ false =
        CommentBody-starts category cs rest body b'+' ∙ plus in
      let q : starts_with b'!' (cs ++ rest) ≡ false =
        CommentBody-starts category cs rest body b'!' ∙ bang in
      record {
        first = b'/';
        others = b'*' ∷ cs;
        is_taken = refl;
        visible = refl;
        scans =
            ap (λ r. (TokenKind.comment, r))
              (rw (block_comment, p, q, if◌then◌else◌)
                (after_check-clean category b'/' _ slash
                  ∙ after_check-clean category b'*' _ star
                  ∙ block_comment_rest_complete category cs rest (byte + width b'/' + width b'*')
                      end_ body others (omega (arith, moved))));
      }

  quoted_complete :
      (quote : ℕ) (backslash : Bool) (cs rest : List ℕ) (byte end_ : ℕ)
      → (backslash && (quote == b'\\')) ≡ false
      → QuotedBody quote backslash cs
      → starts_with quote rest ≡ false
      → all_clean category (quote ∷ cs) ≡ true
      → end_ ≡ byte + widths (quote ∷ cs)
      → quoted category quote backslash (quote ∷ (cs ++ rest)) byte
        ≡ scanned (record { rest = rest; byte = end_ })
  unfolding quoted widths
  quoted_complete quote backslash cs rest byte end_ free body stop clean moved =
      let (ok_, others) = clean-cons category quote cs clean in
      after_check-clean category quote _ ok_
      ∙ quoted_rest_complete category quote backslash cs rest (byte + width quote) end_ free body
          stop others (omega (arith, moved))

  pub string-IsScanned :
      (quote : ℕ) (cs rest : List ℕ) (byte end_ : ℕ)
      → (quote ≡ b'\'') ⊎ (quote ≡ b'"')
      → QuotedBody quote true cs
      → starts_with quote rest ≡ false
      → all_clean category (quote ∷ cs) ≡ true
      → end_ ≡ byte + widths (quote ∷ cs)
      → IsScanned category TokenKind.string (quote ∷ cs) rest byte end_
  unfolding scan_token is_whitespace
  string-IsScanned quote cs rest byte end_ is_quote body stop clean moved =
      let comment_ : (((quote == b'-') && starts_with b'-' (cs ++ rest)) || (quote == b'#'))
          ≡ false =
        ground (arith, is_quote) in
      let block_ : ((quote == b'/') && starts_with b'*' (cs ++ rest)) ≡ false =
        ground (arith, is_quote) in
      let quoted_ : ((quote == b'\'') || (quote == b'"')) ≡ true = ground (arith, is_quote) in
      record {
        first = quote;
        others = cs;
        is_taken = refl;
        visible = ground (arith, is_quote);
        scans =
            rw (scan_token, comment_, block_, quoted_, if◌then◌else◌)
              (ap (λ r. (TokenKind.string, r))
                (quoted_complete quote true cs rest byte end_ (ground (arith, is_quote)) body stop
                  clean moved));
      }

  pub identifier-IsScanned :
      (cs rest : List ℕ) (byte end_ : ℕ)
      → QuotedBody b'`' false cs
      → starts_with b'`' rest ≡ false
      → all_clean category (b'`' ∷ cs) ≡ true
      → end_ ≡ byte + widths (b'`' ∷ cs)
      → IsScanned category TokenKind.quoted_identifier (b'`' ∷ cs) rest byte end_
  unfolding scan_token is_whitespace
  identifier-IsScanned cs rest byte end_ body stop clean moved = record {
    first = b'`';
    others = cs;
    is_taken = refl;
    visible = refl;
    scans =
        ap (λ r. (TokenKind.quoted_identifier, r))
          (quoted_complete b'`' false cs rest byte end_ refl body stop clean moved);
  }

  pub word-IsScanned :
      (c : ℕ) (cs rest : List ℕ) (byte end_ : ℕ)
      → all_of is_word_char (c ∷ cs) ≡ true
      → begins is_word_char rest ≡ false
      → all_clean category (c ∷ cs) ≡ true
      → end_ ≡ byte + widths (c ∷ cs)
      → IsScanned category TokenKind.word (c ∷ cs) rest byte end_
  unfolding scan_token is_whitespace is_word_char is_ascii is_ascii_alnum
  word-IsScanned c cs rest byte end_ inside after_ clean moved =
      let wordy : is_word_char c ≡ true = ground (arith, inside) in
      let comment_ : (((c == b'-') && starts_with b'-' (cs ++ rest)) || (c == b'#')) ≡ false =
        ground (arith, wordy) in
      let block_ : ((c == b'/') && starts_with b'*' (cs ++ rest)) ≡ false = ground (arith, wordy) in
      let quoted_ : ((c == b'\'') || (c == b'"')) ≡ false = ground (arith, wordy) in
      let tick : (c == b'`') ≡ false = ground (arith, wordy) in
      record {
        first = c;
        others = cs;
        is_taken = refl;
        visible = ground (arith, wordy);
        scans =
            rw (scan_token, comment_, block_, quoted_, tick, wordy, if◌then◌else◌)
              (ap (λ r. (TokenKind.word, r))
                (word_rest_complete category (c ∷ cs) rest byte end_ inside after_ clean moved));
      }

  pub symbol-IsScanned :
      (c : ℕ) (rest : List ℕ) (byte end_ : ℕ)
      → is_ascii c ≡ true
      → is_whitespace c ≡ false
      → starts_longer c rest ≡ false
      → all_clean category (c ∷ []) ≡ true
      → end_ ≡ byte + widths (c ∷ [])
      → IsScanned category TokenKind.symbol (c ∷ []) rest byte end_
  unfolding scan_token symbol_char widths
  symbol-IsScanned c rest byte end_ ascii visible_ alone clean moved =
      let comment_ : (((c == b'-') && starts_with b'-' rest) || (c == b'#')) ≡ false =
        ground (arith, alone) in
      let block_ : ((c == b'/') && starts_with b'*' rest) ≡ false = ground (arith, alone) in
      let quoted_ : ((c == b'\'') || (c == b'"')) ≡ false = ground (arith, alone) in
      let tick : (c == b'`') ≡ false = ground (arith, alone) in
      let no_word : is_word_char c ≡ false = ground (arith, alone) in
      record {
        first = c;
        others = [];
        is_taken = refl;
        visible = visible_;
        scans =
            rw (scan_token, comment_, block_, quoted_, tick, no_word, ascii, if◌then◌else◌)
              (ap (λ r. (TokenKind.symbol, r))
                (after_check-clean category c _ (clean-cons category c [] clean).0
                  ∙ ap (λ b. scanned (record { rest = rest; byte = b })) (omega (arith, moved))));
      }
