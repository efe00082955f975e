-- ===== src/Governance/Complete.antt =====
-- The other direction: what the parts of the scanner make of a text of the lexical grammar.
use xiaowei_agent.Governance.Characters.{
  Category, is_line_end, is_word_char, check_char, width, widths,
}
use xiaowei_agent.Governance.Lexemes.{
  begins, CommentBody, all_of, is_empty, ends, goes_on, QuotedBody, closes, doubled, escaped, plain,
}
use xiaowei_agent.Governance.Scanner.{
  Scan, starts_with, after_check, line_comment, block_comment_rest, word_rest, scanned, quoted_rest,
}
use xiaowei_agent.Governance.Subscans.{all_clean, CommentBody-starts}
use xiaowei_agent.Prelude.{
  string_eq, nat_eq, if◌then◌else◌, ◌==◌, ℕ, ◌+◌, ◌≡◌, refl, ap, ◌∙◌, true, false, not, ◌&&◌, ◌||◌,
  none, List, [], ◌∷◌, ◌++◌, arith, Bool-cases, ==_refl, ◌≢◌, inl, inr, Bool,
}

module _ (category : ℕ → Category) where
  pub clean-cons :
      (c : ℕ) (cs : List ℕ)
      → all_clean category (c ∷ cs) ≡ true
      → (check_char category c ≡ none) × (all_clean category cs ≡ true)
  clean-cons c cs h = (ground (arith, h), ground (arith, h))

  pub after_check-clean {ℓ} :
      {A : Type ℓ} (c : ℕ) (next : Scan A)
      → check_char category c ≡ none
      → after_check category c next ≡ next
  unfolding after_check
  after_check-clean c next h = rw (after_check, h) refl

  pub line_comment_complete :
      (cs rest : List ℕ) (byte end_ : ℕ)
      → all_of (λ c. not (is_line_end c)) cs ≡ true
      → (begins is_line_end rest || is_empty rest) ≡ true
      → all_clean category cs ≡ true
      → end_ ≡ byte + widths cs
      → line_comment category (cs ++ rest) byte ≡ scanned (record { rest = rest; byte = end_ })
  unfolding line_comment widths
  line_comment_complete [] [] byte end_ inside after clean moved = ground (arith, moved)
  line_comment_complete [] (d ∷ ds) byte end_ inside after clean moved =
      ground (arith, after, moved)
  line_comment_complete (c ∷ cs) rest byte end_ inside after clean moved =
      let (ok_, others) = clean-cons c cs clean in
      let on : is_line_end c ≡ false = ground (arith, inside) in
      rw (line_comment, on, if◌then◌else◌)
        (after_check-clean c _ ok_
          ∙ line_comment_complete cs rest (byte + width c) end_ (ground (arith, inside)) after
              others (omega (arith, moved)))

  pub word_rest_complete :
      (cs rest : List ℕ) (byte end_ : ℕ)
      → all_of is_word_char cs ≡ true
      → begins is_word_char rest ≡ false
      → all_clean category cs ≡ true
      → end_ ≡ byte + widths cs
      → word_rest category (cs ++ rest) byte ≡ scanned (record { rest = rest; byte = end_ })
  unfolding word_rest widths
  word_rest_complete [] [] byte end_ inside after clean moved = ground (arith, moved)
  word_rest_complete [] (d ∷ ds) byte end_ inside after clean moved = ground (arith, after, moved)
  word_rest_complete (c ∷ cs) rest byte end_ inside after clean moved =
      let (ok_, others) = clean-cons c cs clean in
      let on : is_word_char c ≡ true = ground (arith, inside) in
      rw (word_rest, on, if◌then◌else◌)
        (after_check-clean c _ ok_
          ∙ word_rest_complete cs rest (byte + width c) end_ (ground (arith, inside)) after others
              (omega (arith, moved)))

  -- one character of a comment that does not end there
  block_comment_rest-step :
      (c : ℕ) (ds : List ℕ) (byte : ℕ)
      → check_char category c ≡ none
      → is_empty ds ≡ false
      → ((c == b'*') && starts_with b'/' ds) ≡ false
      → block_comment_rest category (c ∷ ds) byte ≡ block_comment_rest category ds (byte + width c)
  unfolding block_comment_rest starts_with
  block_comment_rest-step c [] byte ok_ some_ free = absurd (ground (arith, some_))
  block_comment_rest-step c (d ∷ ds) byte ok_ some_ free =
      rw (block_comment_rest, free, if◌then◌else◌) (after_check-clean c _ ok_)

  CommentBody-some : (cs rest : List ℕ) → CommentBody cs → is_empty (cs ++ rest) ≡ false
  CommentBody-some _ rest ends = refl
  CommentBody-some _ rest (goes_on c free body) = refl

  pub block_comment_rest_complete :
      (cs rest : List ℕ) (byte end_ : ℕ)
      → CommentBody cs
      → all_clean category cs ≡ true
      → end_ ≡ byte + widths cs
      → block_comment_rest category (cs ++ rest) byte
        ≡ scanned (record { rest = rest; byte = end_ })
  unfolding block_comment_rest widths
  block_comment_rest_complete _ rest byte end_ ends clean moved =
      let (star, others) = clean-cons b'*' (b'/' ∷ []) clean in
      let (slash, none_) = clean-cons b'/' [] others in
      after_check-clean b'*' _ star
      ∙ after_check-clean b'/' _ slash
      ∙ ap (λ b. scanned (record { rest = rest; byte = b })) (omega (arith, moved))
  block_comment_rest_complete _ rest byte end_ (goes_on {cs} c free body) clean moved =
      let (ok_, others) = clean-cons c cs clean in
      block_comment_rest-step c (cs ++ rest) byte ok_ (CommentBody-some cs rest body)
        (rw (CommentBody-starts category cs rest body b'/') free)
      ∙ block_comment_rest_complete cs rest (byte + width c) end_ body others (omega (arith, moved))

  -- one plain character of a quoted text
  quoted_rest-step :
      (quote : ℕ) (backslash : Bool) (c : ℕ) (ds : List ℕ) (byte : ℕ)
      → check_char category c ≡ none
      → is_empty ds ≡ false
      → c ≢ quote
      → (backslash && (c == b'\\')) ≡ false
      → quoted_rest category quote backslash (c ∷ ds) byte
        ≡ quoted_rest category quote backslash ds (byte + width c)
  unfolding quoted_rest
  quoted_rest-step quote backslash c [] byte ok_ some_ other free = absurd (ground (arith, some_))
  quoted_rest-step quote backslash c (d ∷ ds) byte ok_ some_ other free =
      let differs : (c == quote) ≡ false = ground (arith, other) in
      after_check-clean c _ ok_ ∙ rw (free, differs, if◌then◌else◌) refl

  QuotedBody-some :
      (quote : ℕ) (backslash : Bool) (cs rest : List ℕ)
      → QuotedBody quote backslash cs
      → is_empty (cs ++ rest) ≡ false
  QuotedBody-some quote backslash _ rest closes = refl
  QuotedBody-some quote backslash _ rest (doubled body) = refl
  QuotedBody-some quote backslash _ rest (escaped c on body) = refl
  QuotedBody-some quote backslash _ rest (plain c other free body) = refl

  -- the closing quote
  quoted_rest-close :
      (quote : ℕ) (backslash : Bool) (rest : List ℕ) (byte end_ : ℕ)
      → (backslash && (quote == b'\\')) ≡ false
      → starts_with quote rest ≡ false
      → check_char category quote ≡ none
      → end_ ≡ byte + width quote
      → quoted_rest category quote backslash (quote ∷ rest) byte
        ≡ scanned (record { rest = rest; byte = end_ })
  unfolding quoted_rest starts_with
  quoted_rest-close quote backslash [] byte end_ free stop ok_ moved =
      after_check-clean quote _ ok_ ∙ rw (free, ==_refl quote, if◌then◌else◌, moved) refl
  quoted_rest-close quote backslash (d ∷ ds) byte end_ free stop ok_ moved =
      after_check-clean quote _ ok_ ∙ rw (free, ==_refl quote, stop, if◌then◌else◌, moved) refl

  quoted_rest-pair :
      (quote : ℕ) (backslash : Bool) (c d : ℕ) (ds : List ℕ) (byte : ℕ)
      → check_char category c ≡ none
      → check_char category d ≡ none
      → ((backslash && (c == b'\\')) || ((c == quote) && (d == quote))) ≡ true
      → quoted_rest category quote backslash (c ∷ d ∷ ds) byte
        ≡ quoted_rest category quote backslash ds (byte + width c + width d)
  unfolding quoted_rest
  quoted_rest-pair quote backslash c d ds byte ok_ ok' both =
      after_check-clean c _ ok_ ∙ elim (Bool-cases (backslash && (c == b'\\'))) [
        | inl e ↦ rw (e, if◌then◌else◌) (after_check-clean d _ ok')
        | inr e ↦
            let first : (c == quote) ≡ true = ground (arith, both, e) in
            let second : (d == quote) ≡ true = ground (arith, both, e) in
            rw (e, first, second, if◌then◌else◌) (after_check-clean d _ ok')
      ]

  pub quoted_rest_complete :
      (quote : ℕ) (backslash : Bool) (cs rest : List ℕ) (byte end_ : ℕ)
      → (backslash && (quote == b'\\')) ≡ false
      → QuotedBody quote backslash cs
      → starts_with quote rest ≡ false
      → all_clean category cs ≡ true
      → end_ ≡ byte + widths cs
      → quoted_rest category quote backslash (cs ++ rest) byte
        ≡ scanned (record { rest = rest; byte = end_ })
  unfolding widths
  quoted_rest_complete quote backslash _ rest byte end_ free closes stop clean moved =
      quoted_rest-close quote backslash rest byte end_ free stop (clean-cons quote [] clean).0
        (omega (arith, moved))
  quoted_rest_complete quote backslash _ rest byte end_ free (doubled {cs} body) stop clean moved =
      let (ok_, others) = clean-cons quote (quote ∷ cs) clean in
      let (ok', others') = clean-cons quote cs others in
      quoted_rest-pair quote backslash quote quote (cs ++ rest) byte ok_ ok'
        (ground (arith, ==_refl quote))
      ∙ quoted_rest_complete quote backslash cs rest (byte + width quote + width quote) end_ free
          body stop others' (omega (arith, moved))
  quoted_rest_complete quote backslash _ rest byte end_ free (escaped {cs} c on body) stop clean
        moved =
      let (ok_, others) = clean-cons b'\\' (c ∷ cs) clean in
      let (ok', others') = clean-cons c cs others in
      quoted_rest-pair quote backslash b'\\' c (cs ++ rest) byte ok_ ok' (ground (arith, on))
      ∙ quoted_rest_complete quote backslash cs rest (byte + width b'\\' + width c) end_ free body
          stop others' (omega (arith, moved))
  quoted_rest_complete quote backslash _ rest byte end_ free (plain {cs} c other simple body) stop
        clean moved =
      let (ok_, others) = clean-cons c cs clean in
      quoted_rest-step quote backslash c (cs ++ rest) byte ok_
        (QuotedBody-some quote backslash cs rest body) other simple
      ∙ quoted_rest_complete quote backslash cs rest (byte + width c) end_ free body stop others
          (omega (arith, moved))
