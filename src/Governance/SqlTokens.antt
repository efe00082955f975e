-- ===== src/Governance/SqlTokens.antt =====
-- `scan_sql` and `TokenScan` of governance/sql_tokens.py. Decoding UTF-8 is a parameter.
use xiaowei_agent.Governance.Characters.{Category, upper, codes, TokenScanReason, is_bom}
use xiaowei_agent.Governance.Scanner.{TokenKind, SqlToken, run, scanned, refused}
use xiaowei_agent.Prelude.{
  list_eq, string_eq, nat_eq, if◌then◌else◌, ◌==◌, ◌is_some_eq◌, take, keep_if, ℕ, zero, suc, ◌-◌,
  Bool, true, false, not, ◌&&◌, ◌||◌, Option, none, some, List, [], ◌∷◌, ltb, length,
}

abbrev pub sql_max_bytes : ℕ
sql_max_bytes = 65536

unfoldable pub drop : ℕ → List ℕ → List ℕ
drop zero xs = xs
drop (suc n) [] = []
drop (suc n) (x ∷ xs) = drop n xs

-- `raw[start:end]`
unfoldable pub slice : ℕ → ℕ → List ℕ → List ℕ
slice start end_ raw = take (end_ - start) (drop start raw)

unfoldable pub byte_at : ℕ → List ℕ → Option ℕ
byte_at i [] = none
byte_at zero (b ∷ bs) = some b
byte_at (suc i) (b ∷ bs) = byte_at i bs

pub record TokenScan : Type 0 where
  pub raw : List ℕ
  pub tokens : List SqlToken

unfoldable pub is_comment : SqlToken → Bool
is_comment token = elim token.kind [ TokenKind.comment ↦ true | _ ↦ false ]

unfoldable pub is_symbol : SqlToken → Bool
is_symbol token = elim token.kind [ TokenKind.symbol ↦ true | _ ↦ false ]

unfoldable pub is_word : SqlToken → Bool
is_word token = elim token.kind [ TokenKind.word ↦ true | _ ↦ false ]

unfoldable pub is_semicolon : List ℕ → SqlToken → Bool
is_semicolon raw token = is_symbol token && ◌is_some_eq◌ (byte_at token.start_byte raw) b';'

-- the tokens that are no comments
unfoldable pub significant : List SqlToken → List SqlToken
significant tokens = keep_if (λ t. not (is_comment t)) tokens

-- `significant[:-1]` if its last is a semicolon
unfoldable pub drop_last_semicolon : List ℕ → List SqlToken → List SqlToken
drop_last_semicolon raw [] = []
drop_last_semicolon raw (t ∷ []) = if is_semicolon raw t then [] else t ∷ []
drop_last_semicolon raw (t ∷ u ∷ us) = t ∷ drop_last_semicolon raw (u ∷ us)

unfoldable pub statement_tokens : TokenScan → List SqlToken
statement_tokens scan = drop_last_semicolon scan.raw (significant scan.tokens)

-- a semicolon before the last of the tokens
unfoldable pub has_early_semicolon : List ℕ → List SqlToken → Bool
has_early_semicolon raw [] = false
has_early_semicolon raw (t ∷ []) = false
has_early_semicolon raw (t ∷ u ∷ us) = is_semicolon raw t || has_early_semicolon raw (u ∷ us)

-- `current == "INTO" and following in _FILE_TARGETS` for a pair of neighbours
unfoldable pub names_file : List (List ℕ) → Bool
names_file [] = false
names_file (w ∷ []) = false
names_file (w ∷ v ∷ vs) =
    ((w == codes "INTO") && ((v == codes "OUTFILE") || (v == codes "DUMPFILE")))
    || names_file (v ∷ vs)

pub data ScanOutcome : Type 0 where
  accepts : TokenScan → ScanOutcome
  raises : TokenScanReason → ScanOutcome
  unicode_decode_error : ScanOutcome
  run_needs_fuel : ScanOutcome

module _ (category : ℕ → Category) (decode : List ℕ → Option (List ℕ)) where
  -- `scan.text(t).upper()` of a word, "" of another token; `none` is a UnicodeDecodeError
  unfoldable pub upper_word : List ℕ → SqlToken → Option (List ℕ)
  upper_word raw token =
      if is_word token
      then elim (decode (slice token.start_byte token.end_byte raw)) [
        | none ↦ none
        | some text ↦ some (upper text)
      ]
      else some []

  unfoldable pub upper_words : List ℕ → List SqlToken → Option (List (List ℕ))
  upper_words raw [] = some []
  upper_words raw (t ∷ ts) = elim (upper_word raw t) [
    | none ↦ none
    | some w ↦ elim (upper_words raw ts) [ none ↦ none | some ws ↦ some (w ∷ ws) ]
  ]

  -- what `scan_sql` checks of the tokens
  unfoldable pub check_statement : TokenScan → ScanOutcome
  check_statement scan =
      if has_early_semicolon scan.raw (significant scan.tokens)
      then raises TokenScanReason.multi_statement
      else elim (upper_words scan.raw (significant scan.tokens)) [
        | none ↦ unicode_decode_error
        | some words ↦
            if names_file words
            then raises TokenScanReason.into_outfile
            else elim (statement_tokens scan) [
              | [] ↦ raises TokenScanReason.empty
              | t ∷ ts ↦ accepts scan
            ]
      ]

  unfoldable pub contains_bom : List ℕ → Bool
  contains_bom [] = false
  contains_bom (c ∷ cs) = is_bom c || contains_bom cs

  -- the fuel is one round more than there are characters
  unfoldable pub scan_text : List ℕ → List ℕ → ScanOutcome
  scan_text raw text =
      if contains_bom text
      then raises TokenScanReason.bom
      else elim (run category (suc (length text)) text 0) [
        | none ↦ run_needs_fuel
        | some (refused reason) ↦ raises reason
        | some (scanned tokens) ↦ check_statement (record { raw = raw; tokens = tokens })
      ]

  unfoldable pub scan_sql : List ℕ → ScanOutcome
  scan_sql raw =
      if ltb sql_max_bytes (length raw)
      then raises TokenScanReason.too_long
      else elim (decode raw) [
        | none ↦ raises TokenScanReason.invalid_utf8
        | some text ↦ scan_text raw text
      ]
