-- ===== src/Governance/Runs.antt =====
-- The whole run of the scanner: the tokens of the lexical grammar, within its fuel.
use xiaowei_agent.Channel.Rebinding.{later}
use xiaowei_agent.Governance.Characters.{
  Category, TokenScanReason, is_whitespace, check_char, width,
}
use xiaowei_agent.Governance.Lexemes.{
  Lexeme, Tiles, dashes, hash, block, string_lexeme, quoted_identifier_lexeme, word_lexeme,
  symbol_lexeme, finished, blank, covers,
}
use xiaowei_agent.Governance.Scanner.{
  run, TokenKind, SqlToken, Scan, scan_token, append_token, scanned, refused,
}
use xiaowei_agent.Governance.Tiling.{scan_token-TookToken}
use xiaowei_agent.Prelude.{
  string_eq, nat_eq, Bool-cases, Option-cases, length, ℕ, zero, suc, ◌+◌, ◌<◌, ◌≡◌, refl, ap, ◌∙◌,
  ◌≢◌, ◌⊎◌, inl, inr, Option, none, some, List, [], ◌∷◌, ◌++◌, arith,
}

Scan-cases :
    {A : Type 0} (r : Scan A)
    → ((reason : TokenScanReason) × (r ≡ refused reason)) ⊎ ((x : A) × (r ≡ scanned x))
Scan-cases (refused reason) = inl (reason, refl)
Scan-cases (scanned x) = inr (x, refl)

scanned_empty : {tokens : List SqlToken} → some (scanned []) ≡ some (scanned tokens) → [] ≡ tokens
scanned_empty h = ground (arith, h)

module _ (category : ℕ → Category) where
  pub length-append : (xs ys : List ℕ) → length (xs ++ ys) ≡ length xs + length ys
  length-append [] ys = omega arith
  length-append (x ∷ xs) ys = omega (arith, length-append xs ys)

  pub Lexeme-nonempty :
      {kind : TokenKind} (taken rest : List ℕ) → Lexeme kind taken rest → 0 < length taken
  Lexeme-nonempty _ rest (dashes cs _ h after) = omega arith
  Lexeme-nonempty _ rest (hash cs _ h after) = omega arith
  Lexeme-nonempty _ rest (block cs _ h p q) = omega arith
  Lexeme-nonempty _ rest (string_lexeme quote cs _ q h s) = omega arith
  Lexeme-nonempty _ rest (quoted_identifier_lexeme cs _ h s) = omega arith
  Lexeme-nonempty _ rest (word_lexeme c cs _ h after) = omega arith
  Lexeme-nonempty _ rest (symbol_lexeme c _ h blank_ alone) = omega arith

  append_token-scanned :
      (kind : TokenKind) (start end_ : ℕ) (r : Option (Scan (List SqlToken)))
      (tokens : List SqlToken)
      → append_token category kind start end_ r ≡ some (scanned tokens)
      → (rest : List SqlToken) × (r ≡ some (scanned rest))
        × (tokens ≡ record { kind = kind; start_byte = start; end_byte = end_ } ∷ rest)
  unfolding append_token
  append_token-scanned kind start end_ none tokens h = absurd (ground (arith, h))
  append_token-scanned kind start end_ (some (refused reason)) tokens h = absurd (ground (arith, h))
  append_token-scanned kind start end_ (some (scanned rest)) tokens h =
      (rest, refl, ground (arith, h))

  append_token-none :
      (kind : TokenKind) (start end_ : ℕ) (r : Option (Scan (List SqlToken)))
      → append_token category kind start end_ r ≡ none
      → r ≡ none
  unfolding append_token
  append_token-none kind start end_ none h = refl
  append_token-none kind start end_ (some (refused reason)) h = absurd (ground (arith, h))
  append_token-none kind start end_ (some (scanned rest)) h = absurd (ground (arith, h))

  -- A run that gives tokens tiles the text with blanks and tokens of the lexical grammar.
  pub run-Tiles :
      (fuel : ℕ) (text : List ℕ) (byte : ℕ) (tokens : List SqlToken)
      → run category fuel text byte ≡ some (scanned tokens)
      → Tiles category byte text tokens
  unfolding run
  run-Tiles zero text byte tokens h = absurd (ground (arith, h))
  run-Tiles (suc fuel) [] byte tokens h = rw (← scanned_empty h) finished
  run-Tiles (suc fuel) (c ∷ cs) byte tokens h = elim (Bool-cases (is_whitespace c)) [
    | inl e ↦ elim (Option-cases (check_char category c)) [
      | inl f ↦ blank c e f (run-Tiles fuel cs (byte + width c) tokens (rw (run, e, f) at h))
      | inr (reason, f) ↦ absurd (ground (arith, h, e, f))
    ]
    | inr e ↦ elim (Scan-cases (scan_token category c cs byte).1) [
      | inl (reason, f) ↦ absurd (ground (arith, h, e, f))
      | inr (p, f) ↦
          let t = scan_token-TookToken category c cs byte e p f in
          let (rest, later, same) =
            append_token-scanned (scan_token category c cs byte).0 byte p.byte
              (run category fuel p.rest p.byte) tokens (rw (run, e, f) at h) in
          rw same (
            covers (scan_token category c cs byte).0 t.taken p.rest (c ∷ cs) p.byte t.split t.moved
              t.shape t.clean (run-Tiles fuel p.rest p.byte rest later))
    ]
  ]

  -- Fuel for one round more than there are characters is enough.
  pub run-enough :
      (fuel : ℕ) (text : List ℕ) (byte : ℕ)
      → length text < fuel
      → run category fuel text byte ≢ none
  unfolding run
  run-enough zero text byte h = absurd (omega arith)
  run-enough (suc fuel) [] byte h = ground arith
  run-enough (suc fuel) (c ∷ cs) byte h = elim (Bool-cases (is_whitespace c)) [
    | inl e ↦ ground (arith, e, run-enough fuel cs (byte + width c) (omega arith))
    | inr e ↦ elim (Scan-cases (scan_token category c cs byte).1) [
      | inl (reason, f) ↦ ground (arith, e, f)
      | inr (p, f) ↦
          let t = scan_token-TookToken category c cs byte e p f in
          let size : length (c ∷ cs) ≡ length t.taken + length p.rest =
            ap length t.split ∙ length-append t.taken p.rest in
          let shorter : length p.rest < fuel =
            omega (arith, size, Lexeme-nonempty t.taken p.rest t.shape) in
          λ q. run-enough fuel p.rest p.byte shorter (
            append_token-none (scan_token category c cs byte).0 byte p.byte
              (run category fuel p.rest p.byte) (rw (run, e, f) at q))
    ]
  ]
