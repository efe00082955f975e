-- ===== src/Governance/Slices.antt =====
-- The bytes of the tokens, and that the scan answers every text.
use xiaowei_agent.Channel.Rebinding.{later}
use xiaowei_agent.Governance.Characters.{Category, widths, is_ascii, is_word_char, width}
use xiaowei_agent.Governance.Lexemes.{
  Tiles, finished, blank, covers, all_of, Lexeme, dashes, hash, block, string_lexeme,
  quoted_identifier_lexeme, word_lexeme, symbol_lexeme,
}
use xiaowei_agent.Governance.Scanner.{SqlToken, TokenKind}
use xiaowei_agent.Governance.SqlTokens.{
  drop, slice, is_word, significant, upper_word, upper_words, check_statement, unicode_decode_error,
  run_needs_fuel, is_comment,
}
use xiaowei_agent.Governance.Utf8.{
  encode, Utf8, length-encode, encode-append, drop_add, drop-append, take-append, encode_ascii,
}
use xiaowei_agent.Prelude.{
  string_eq, nat_eq, length, ℕ, ◌+◌, ◌-◌, ◌≡◌, ◌∙◌, true, Option, some, List, [], ◌∷◌, ◌++◌, arith,
  if◌then◌else◌, Bool-cases, keep_if, refl, ap, ◌≢◌, inl, inr, Bool, none, sym, not,
}
use xiaowei_agent.Store.Calls.{after}

module _ (category : ℕ → Category) (decode : List ℕ → Option (List ℕ)) (utf8 : Utf8 decode)
    (raw : List ℕ) where
  -- every word of the tokens decodes
  abbrev WordsDecode : List SqlToken → Type 0
  WordsDecode [] = Unit
  WordsDecode (t ∷ ts) =
      (is_word t ≡ true → (w : List ℕ) × (decode (slice t.start_byte t.end_byte raw) ≡ some w))
      × WordsDecode ts

  slice-encode :
      (byte end_ : ℕ) (taken rest : List ℕ)
      → drop byte raw ≡ encode (taken ++ rest)
      → end_ ≡ byte + widths taken
      → (slice byte end_ raw ≡ encode taken) × (drop end_ raw ≡ encode rest)
  unfolding slice
  slice-encode byte end_ taken rest h e =
      let whole : drop byte raw ≡ encode taken ++ encode rest = h ∙ encode-append taken rest in
      let size : end_ - byte ≡ length (encode taken) = omega (arith, length-encode taken, e) in
      let after : end_ ≡ byte + length (encode taken) = omega (arith, length-encode taken, e) in
      (
        rw (size, whole) (take-append (encode taken) (encode rest)),
        rw (drop_add byte (length (encode taken)) end_ raw after, whole)
            (drop-append (encode taken) (encode rest)),
      )

  word_chars_ascii : (cs : List ℕ) → all_of is_word_char cs ≡ true → all_of is_ascii cs ≡ true
  unfolding is_word_char
  word_chars_ascii [] h = refl
  word_chars_ascii (c ∷ cs) h = ground (arith, word_chars_ascii cs)

  -- a word is ASCII
  Lexeme-ascii :
      (kind : TokenKind) (start end_ : ℕ) (taken rest : List ℕ)
      → Lexeme kind taken rest
      → is_word (record { kind = kind; start_byte = start; end_byte = end_ }) ≡ true
      → all_of is_ascii taken ≡ true
  unfolding is_word
  Lexeme-ascii _ start end_ _ rest (dashes cs _ h after) w = absurd (ground (arith, w))
  Lexeme-ascii _ start end_ _ rest (hash cs _ h after) w = absurd (ground (arith, w))
  Lexeme-ascii _ start end_ _ rest (block cs _ h p q) w = absurd (ground (arith, w))
  Lexeme-ascii _ start end_ _ rest (string_lexeme quote cs _ q h s) w = absurd (ground (arith, w))
  Lexeme-ascii _ start end_ _ rest (quoted_identifier_lexeme cs _ h s) w =
      absurd (ground (arith, w))
  Lexeme-ascii _ start end_ _ rest (word_lexeme c cs _ h after) w = word_chars_ascii (c ∷ cs) h
  Lexeme-ascii _ start end_ _ rest (symbol_lexeme c _ h blank_ alone) w = absurd (ground (arith, w))

  Tiles-WordsDecode :
      {byte : ℕ} {text : List ℕ} {tokens : List SqlToken}
      → drop byte raw ≡ encode text
      → Tiles category byte text tokens
      → WordsDecode tokens
  unfolding widths
  Tiles-WordsDecode h finished = tt
  Tiles-WordsDecode {byte} h (blank {cs = cs} c e f rest) =
      Tiles-WordsDecode (slice-encode byte (byte + width c) (c ∷ []) cs h (omega arith)).1 rest
  Tiles-WordsDecode {byte} h (covers kind taken rest text end_ split moved shape clean later) =
      let (bytes, onward) = slice-encode byte end_ taken rest (h ∙ ap encode split) moved in
      (
        λ w.
            let only = Lexeme-ascii kind byte end_ taken rest shape w in
            (taken, ap decode (bytes ∙ encode_ascii taken only) ∙ utf8.ascii taken only),
        Tiles-WordsDecode onward later,
      )

  keep_if-WordsDecode :
      (test : SqlToken → Bool) (tokens : List SqlToken)
      → WordsDecode tokens
      → WordsDecode (keep_if test tokens)
  keep_if-WordsDecode test [] h = tt
  keep_if-WordsDecode test (t ∷ ts) h = elim (Bool-cases (test t)) [
    | inl e ↦ rw (e, if◌then◌else◌) (h.0, keep_if-WordsDecode test ts h.1)
    | inr e ↦ rw (e, if◌then◌else◌) (keep_if-WordsDecode test ts h.1)
  ]

  WordsDecode-upper_words :
      (tokens : List SqlToken) → WordsDecode tokens → upper_words category decode raw tokens ≢ none
  unfolding upper_words upper_word
  WordsDecode-upper_words [] h = ground arith
  WordsDecode-upper_words (t ∷ ts) h = elim (Bool-cases (is_word t)) [
    | inl e ↦ let (w, d) = h.0 e in ground (arith, e, d, WordsDecode-upper_words ts h.1)
    | inr e ↦ ground (arith, e, WordsDecode-upper_words ts h.1)
  ]

  check_statement-answers :
      (tokens : List SqlToken)
      → WordsDecode (significant tokens)
      → let r = check_statement category decode (record { raw = raw; tokens = tokens }) in
        (r ≢ unicode_decode_error) × (r ≢ run_needs_fuel)
  unfolding check_statement
  check_statement-answers tokens h = ground (arith, WordsDecode-upper_words (significant tokens) h)

  pub Tiles-answers :
      (text : List ℕ) (tokens : List SqlToken)
      → decode raw ≡ some text
      → Tiles category 0 text tokens
      → let r = check_statement category decode (record { raw = raw; tokens = tokens }) in
        (r ≢ unicode_decode_error) × (r ≢ run_needs_fuel)
  unfolding drop significant
  Tiles-answers text tokens h tiles = check_statement-answers tokens (
      keep_if-WordsDecode (λ t. not (is_comment t)) tokens
        (Tiles-WordsDecode (sym (utf8.encodes raw text h)) tiles))
