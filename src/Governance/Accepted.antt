-- ===== src/Governance/Accepted.antt =====
-- What `scan_sql` answers.
use xiaowei_agent.Contracts.Task.{is_set}
use xiaowei_agent.Governance.Characters.{Category, TokenScanReason, check_char}
use xiaowei_agent.Governance.Found.{run_complete}
use xiaowei_agent.Governance.Lexemes.{Tiles, all_of, finished, blank, covers}
use xiaowei_agent.Governance.Runs.{run-Tiles, run-enough}
use xiaowei_agent.Governance.Scanner.{SqlToken, run, Scan, scanned, refused}
use xiaowei_agent.Governance.Slices.{Tiles-answers}
use xiaowei_agent.Governance.SqlTokens.{
  sql_max_bytes, TokenScan, is_comment, is_semicolon, significant, drop_last_semicolon,
  statement_tokens, has_early_semicolon, names_file, upper_words, check_statement, scan_text,
  scan_sql, accepts, unicode_decode_error, run_needs_fuel, contains_bom,
}
use xiaowei_agent.Governance.Utf8.{Utf8}
use xiaowei_agent.Prelude.{
  string_eq, nat_eq, Option-cases, length, keep_if, ℕ, ◌≤◌, ◌≡◌, refl, ◌≢◌, inl, inr, Bool, true,
  false, not, ◌&&◌, Option, some, List, [], ◌∷◌, arith, suc, none, ltb, sym, ap, subst, ◌∙◌, ◌↔◌,
  ◌++◌,
}

abbrev pub every : (SqlToken → Bool) → List SqlToken → Bool
every test [] = true
every test (t ∷ ts) = test t && every test ts

-- A text that is accepted: its tokens are those of the lexical grammar and no character is a refused one,
-- and its statement has tokens, none of them a comment or a semicolon, and no `INTO OUTFILE`.
pub record Accepted (category : ℕ → Category) (decode : List ℕ → Option (List ℕ)) (raw : List ℕ)
    (scan : TokenScan) : Type 0 where
  pub text : List ℕ
  pub decoded : decode raw ≡ some text
  pub same_raw : scan.raw ≡ raw
  pub size : length raw ≤ sql_max_bytes
  pub tiles : Tiles category 0 text scan.tokens
  pub one_statement :
      every (λ t. not (is_comment t) && not (is_semicolon raw t)) (statement_tokens scan) ≡ true
  pub some_token : statement_tokens scan ≢ []
  pub words : List (List ℕ)
  pub words_of : upper_words category decode raw (significant scan.tokens) ≡ some words
  pub no_file : names_file words ≡ false

keep_if-every : (test : SqlToken → Bool) (ts : List SqlToken) → every test (keep_if test ts) ≡ true
keep_if-every test [] = refl
keep_if-every test (t ∷ ts) = ground (arith, keep_if-every test ts)

drop_last-every :
    (raw : List ℕ) (ts : List SqlToken)
    → every (λ t. not (is_comment t)) ts ≡ true
    → has_early_semicolon raw ts ≡ false
    → every (λ t. not (is_comment t) && not (is_semicolon raw t)) (drop_last_semicolon raw ts)
      ≡ true
unfolding drop_last_semicolon has_early_semicolon
drop_last-every raw [] h e = refl
drop_last-every raw (t ∷ []) h e = ground arith
drop_last-every raw (t ∷ u ∷ us) h e = ground (arith, drop_last-every raw (u ∷ us))

early_semicolon_free :
    (raw : List ℕ) (ts : List SqlToken)
    → every (λ t. not (is_comment t) && not (is_semicolon raw t)) (drop_last_semicolon raw ts)
      ≡ true
    → has_early_semicolon raw ts ≡ false
unfolding drop_last_semicolon has_early_semicolon
early_semicolon_free raw [] h = refl
early_semicolon_free raw (t ∷ []) h = refl
early_semicolon_free raw (t ∷ u ∷ us) h = ground (arith, early_semicolon_free raw (u ∷ us))

significant-every : (ts : List SqlToken) → every (λ t. not (is_comment t)) (significant ts) ≡ true
unfolding significant
significant-every ts = keep_if-every (λ t. not (is_comment t)) ts

data Ran (r : Option (Scan (List SqlToken))) : Type 0 where
  starved : r ≡ none → Ran r
  refusal : (reason : TokenScanReason) → r ≡ some (refused reason) → Ran r
  gave : (tokens : List SqlToken) → r ≡ some (scanned tokens) → Ran r

Run-cases : (r : Option (Scan (List SqlToken))) → Ran r
Run-cases none = Ran.starved refl
Run-cases (some (refused reason)) = Ran.refusal reason refl
Run-cases (some (scanned tokens)) = Ran.gave tokens refl

module _ (category : ℕ → Category) (decode : List ℕ → Option (List ℕ)) where
  clean-no_bom :
      (cs rest : List ℕ)
      → all_of (λ c. not (is_set (check_char category c))) cs ≡ true
      → contains_bom category decode rest ≡ false
      → contains_bom category decode (cs ++ rest) ≡ false
  unfolding contains_bom check_char
  clean-no_bom [] rest clean h = h
  clean-no_bom (c ∷ cs) rest clean h = ground (arith, clean, clean-no_bom cs rest, h)

  Tiles-no_bom :
      {byte : ℕ} {text : List ℕ} {tokens : List SqlToken}
      → Tiles category byte text tokens
      → contains_bom category decode text ≡ false
  unfolding contains_bom check_char
  Tiles-no_bom finished = refl
  Tiles-no_bom (blank c white ok_ tail) = ground (arith, ok_, Tiles-no_bom tail)
  Tiles-no_bom (covers kind taken rest text end_ split moved lexeme clean tail) =
      rw split (clean-no_bom taken rest clean (Tiles-no_bom tail))

  check_statement-accepts :
      (given scan : TokenScan)
      → check_statement category decode given ≡ accepts scan
      → (scan ≡ given)
        × (has_early_semicolon given.raw (significant given.tokens) ≡ false)
        × (statement_tokens given ≢ [])
        × ((words : List (List ℕ)) × (upper_words category decode given.raw
                (significant given.tokens)
              ≡ some words)
            × (names_file words ≡ false))
  unfolding check_statement
  check_statement-accepts given scan h =
      elim (Option-cases (upper_words category decode given.raw (significant given.tokens))) [
        | inl e ↦ absurd (ground (arith, h, e))
        | inr (words, e) ↦ (
          ground (arith, h, e),
          ground (arith, h, e),
          ground (arith, h, e),
          (words, e, ground (arith, h, e)),
        )
      ]

  accepts-Accepted :
      (raw : List ℕ) (scan : TokenScan)
      → scan_sql category decode raw ≡ accepts scan
      → Accepted category decode raw scan
  unfolding scan_sql scan_text statement_tokens
  accepts-Accepted raw scan h = elim (Option-cases (decode raw)) [
    | inl e ↦ absurd (ground (arith, h, e))
    | inr (text, e) ↦ elim (Run-cases (run category (suc (length text)) text 0)) [
      | Ran.starved f ↦ absurd (ground (arith, h, e, f))
      | Ran.refusal reason f ↦ absurd (ground (arith, h, e, f))
      | Ran.gave tokens f ↦
          let given : TokenScan = record { raw = raw; tokens = tokens } in
          let step : check_statement category decode given ≡ accepts scan =
            ground (arith, h, e, f) in
          let (same, early, nonempty, (words, words_of, no_file)) =
            check_statement-accepts given scan step in
          rw same (record {
            text = text;
            decoded = e;
            same_raw = refl;
            size = ground (arith, h);
            tiles = run-Tiles category (suc (length text)) text 0 tokens f;
            one_statement =
                drop_last-every raw (significant tokens) (significant-every tokens) early;
            some_token = nonempty;
            words = words;
            words_of = words_of;
            no_file = no_file;
          })
    ]
  ]

  check_statement_complete :
      (scan : TokenScan) (words : List (List ℕ))
      → has_early_semicolon scan.raw (significant scan.tokens) ≡ false
      → upper_words category decode scan.raw (significant scan.tokens) ≡ some words
      → names_file words ≡ false
      → statement_tokens scan ≢ []
      → check_statement category decode scan ≡ accepts scan
  unfolding check_statement
  check_statement_complete scan words early words_of no_file some_token =
      ground (arith, early, words_of, no_file, some_token)

  Accepted-accepts :
      (raw : List ℕ) (scan : TokenScan)
      → Accepted category decode raw scan
      → scan_sql category decode raw ≡ accepts scan
  unfolding scan_sql scan_text statement_tokens
  Accepted-accepts raw scan w =
      let ran = run_complete category (suc (length w.text)) (omega arith) w.tiles in
      let given : TokenScan = record { raw = raw; tokens = scan.tokens } in
      let early : has_early_semicolon raw (significant scan.tokens) ≡ false =
        early_semicolon_free raw (significant scan.tokens) (
          subst
            (λ r.
              every (λ t. not (is_comment t) && not (is_semicolon raw t))
                (drop_last_semicolon r (significant scan.tokens))
              ≡ true)
            w.same_raw w.one_statement) in
      let checked : check_statement category decode given ≡ accepts given =
        check_statement_complete given w.words early w.words_of w.no_file (
          subst (λ r. drop_last_semicolon r (significant scan.tokens) ≢ []) w.same_raw
            w.some_token) in
      let same : given ≡ scan =
        ap (λ r. record { raw = r; tokens = scan.tokens }) (sym w.same_raw) in
      let small : ltb sql_max_bytes (length raw) ≡ false = ground (arith, w.size) in
      rw (scan_sql, small)
        (rw w.decoded (rw (scan_text, Tiles-no_bom w.tiles) (rw ran (checked ∙ ap accepts same))))

  -- A text is accepted with its tokens exactly when it is within the size, splits into blanks and these tokens
  -- of the lexical grammar (escapes in strings, comments up to their first end, words and line comments as
  -- long as they go, symbols that start nothing else) without a refused character, and has one statement,
  -- which is not empty and names no INTO OUTFILE or DUMPFILE.
  pub scan_sql-Accepted :
      (raw : List ℕ) (scan : TokenScan)
      → (scan_sql category decode raw ≡ accepts scan) ↔ Accepted category decode raw scan
  scan_sql-Accepted raw scan = (accepts-Accepted raw scan, Accepted-accepts raw scan)

  -- With a decoder of UTF-8, every text is answered, by its tokens or one of the closed set of reasons: the
  -- fuel is enough and no word fails to decode.
  pub scan_sql-answers :
      (raw : List ℕ)
      → Utf8 decode
      → (scan_sql category decode raw ≢ unicode_decode_error)
        × (scan_sql category decode raw ≢ run_needs_fuel)
  unfolding scan_sql scan_text
  scan_sql-answers raw utf8 = elim (Option-cases (decode raw)) [
    | inl e ↦ ground (arith, e)
    | inr (text, e) ↦ elim (Run-cases (run category (suc (length text)) text 0)) [
      | Ran.starved f ↦ absurd (run-enough category (suc (length text)) text 0 (omega arith) f)
      | Ran.refusal reason f ↦ ground (arith, e, f)
      | Ran.gave tokens f ↦
          let r =
            Tiles-answers category decode utf8 raw text tokens e
              (run-Tiles category (suc (length text)) text 0 tokens f) in
          ground (arith, e, f, r)
    ]
  ]
