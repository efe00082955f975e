-- ===== src/Governance/Tiling.antt =====
-- That the scanner gives the tokens of the lexical grammar, and gives them within its fuel.
use xiaowei_agent.Governance.Branches.{
  dashes-Took, hash-Took, word-Took, symbol-Took, block-Took, quoted-Took,
}
use xiaowei_agent.Governance.Characters.{
  Category, is_ascii, is_word_char, TokenScanReason, is_whitespace,
}
use xiaowei_agent.Governance.Lexemes.{Lexeme, string_lexeme, quoted_identifier_lexeme}
use xiaowei_agent.Governance.Scanner.{
  quoted, Position, starts_with, scan_token, scanned, TokenKind, Scan, line_comment, after_check,
  block_comment, refused,
}
use xiaowei_agent.Governance.Subscans.{Took, after_check-scanned, Took-map}
use xiaowei_agent.Prelude.{
  string_eq, nat_eq, if◌then◌else◌, Bool-cases, ◌==◌, ℕ, ◌≡◌, inl, inr, ◌&&◌, ◌||◌, List, ◌∷◌, true,
  arith, false, ◌⊎◌,
}

module _ (category : ℕ → Category) where
  -- what a round gives, with its kind
  abbrev pub TookToken : ℕ → List ℕ → ℕ → TokenKind × Scan Position → Type 0
  TookToken c cs byte r =
      (p : Position) → r.1 ≡ scanned p → Took category (Lexeme r.0) (c ∷ cs) byte p

  comment-TookToken :
      (c : ℕ) (cs : List ℕ) (byte : ℕ)
      → (((c == b'-') && starts_with b'-' cs) || (c == b'#')) ≡ true
      → TookToken c cs byte (TokenKind.comment, line_comment category (c ∷ cs) byte)
  comment-TookToken c cs byte e p h = elim (Bool-cases (c == b'#')) [
    | inl f ↦
        let same : c ≡ b'#' = ground (arith, f) in
        rw same (hash-Took category cs byte p (rw same at h))
    | inr f ↦
        let same : c ≡ b'-' = ground (arith, f, e) in
        rw same (dashes-Took category cs byte p (ground (arith, f, e)) (rw same at h))
  ]

  string-TookToken :
      (c : ℕ) (cs : List ℕ) (byte : ℕ)
      → ((c == b'\'') || (c == b'"')) ≡ true
      → TookToken c cs byte (TokenKind.string, quoted category c true (c ∷ cs) byte)
  string-TookToken c cs byte e p h =
      let is_quote : (c ≡ b'\'') ⊎ (c ≡ b'"') = ground (arith, e) in
      Took-map category _ (Lexeme TokenKind.string) (c ∷ cs) byte p
        (λ taken rest (body, same, (shape, stop)).
          rw same (string_lexeme c body rest is_quote shape stop))
        (quoted-Took category c true cs byte p h)

  identifier-TookToken :
      (c : ℕ) (cs : List ℕ) (byte : ℕ)
      → (c == b'`') ≡ true
      → TookToken c cs byte (TokenKind.quoted_identifier, quoted category c false (c ∷ cs) byte)
  identifier-TookToken c cs byte e p h =
      let same : c ≡ b'`' = ground (arith, e) in
      rw same (
        Took-map category _ (Lexeme TokenKind.quoted_identifier) (b'`' ∷ cs) byte p
          (λ taken rest (body, e, (shape, stop)).
            rw e (quoted_identifier_lexeme body rest shape stop))
          (quoted-Took category b'`' false cs byte p (rw same at h)))

  block-TookToken :
      (c : ℕ) (cs : List ℕ) (byte : ℕ)
      → ((c == b'/') && starts_with b'*' cs) ≡ true
      → TookToken c cs byte (TokenKind.comment, block_comment category (c ∷ cs) byte)
  block-TookToken c cs byte e p h =
      let same : c ≡ b'/' = ground (arith, e) in
      rw same (block-Took category cs byte p (ground (arith, e)) (rw same at h))

  refused-TookToken :
      (c : ℕ) (cs : List ℕ) (byte : ℕ) (kind : TokenKind) (reason : TokenScanReason)
      → TookToken c cs byte (kind, after_check category c (refused reason))
  refused-TookToken c cs byte kind reason p h =
      absurd (ground (arith, (after_check-scanned category c _ p h).1))

  -- What a round took is a token of its kind.
  pub scan_token-TookToken :
      (c : ℕ) (cs : List ℕ) (byte : ℕ)
      → is_whitespace c ≡ false
      → TookToken c cs byte (scan_token category c cs byte)
  unfolding scan_token
  scan_token-TookToken c cs byte visible =
      elim (Bool-cases (((c == b'-') && starts_with b'-' cs) || (c == b'#'))) [
        | inl e ↦ rw (scan_token, e, if◌then◌else◌) (comment-TookToken c cs byte e)
        | inr e ↦ elim (Bool-cases ((c == b'/') && starts_with b'*' cs)) [
          | inl f ↦ rw (scan_token, e, f, if◌then◌else◌) (block-TookToken c cs byte f)
          | inr f ↦ elim (Bool-cases ((c == b'\'') || (c == b'"'))) [
            | inl g ↦ rw (scan_token, e, f, g, if◌then◌else◌) (string-TookToken c cs byte g)
            | inr g ↦ elim (Bool-cases (c == b'`')) [
              | inl i ↦
                  rw (scan_token, e, f, g, i, if◌then◌else◌) (identifier-TookToken c cs byte i)
              | inr i ↦ elim (Bool-cases (is_word_char c)) [
                | inl j ↦
                    rw (scan_token, e, f, g, i, j, if◌then◌else◌)
                      (λ p h. word-Took category c cs byte p j h)
                | inr j ↦ elim (Bool-cases (is_ascii c)) [
                  | inl k ↦
                      rw (scan_token, e, f, g, i, j, k, if◌then◌else◌)
                        (λ p h.
                          symbol-Took category c cs byte p k visible (ground (arith, e, f, g, i, j))
                            h)
                  | inr k ↦
                      rw (scan_token, e, f, g, i, j, k, if◌then◌else◌)
                        (refused-TookToken c cs byte TokenKind.symbol
                          TokenScanReason.ambiguous_punctuation)
                ]
              ]
            ]
          ]
        ]
      ]
