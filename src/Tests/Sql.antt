-- ===== src/Tests/Sql.antt =====
-- The theorems on the SQL scanner at the runs of small texts, with a decoder of ASCII.
use xiaowei_agent.Governance.Accepted.{Accepted, scan_sql-Accepted, scan_sql-answers}
use xiaowei_agent.Governance.Bounds.{in_order, scan_sql-in_order}
use xiaowei_agent.Governance.Characters.{
  Category, TokenScanReason, is_ascii, codes, is_bom, is_whitespace, is_line_end, is_ascii_alnum,
  is_word_char, is_rejected_category, is_control, check_char, width, widths, upper_char, upper,
}
use xiaowei_agent.Governance.Lexemes.{all_of}
use xiaowei_agent.Governance.Scanner.{
  run, starts_with, after_check, line_comment, block_comment_rest, block_comment, quoted_rest,
  quoted, word_rest, symbol_char, scan_token, append_token,
}
use xiaowei_agent.Governance.SqlTokens.{
  scan_sql, raises, unicode_decode_error, run_needs_fuel, drop, slice, byte_at, TokenScan,
  is_comment, is_symbol, is_word, is_semicolon, significant, drop_last_semicolon, statement_tokens,
  has_early_semicolon, names_file, ScanOutcome, upper_word, upper_words, check_statement,
  contains_bom, scan_text, accepts,
}
use xiaowei_agent.Governance.Utf8.{Utf8, encode_ascii}
use xiaowei_agent.Prelude.{
  string_eq, nat_eq, ltb, if◌then◌else◌, length, ℕ, ◌≡◌, refl, sym, ◌∙◌, ◌≢◌, true, Option, none,
  some, List, arith, [], ◌↔◌,
}

category : ℕ → Category
category c = if ltb c 32 then Category.control else Category.other_category

ascii_decode : List ℕ → Option (List ℕ)
ascii_decode bytes = if all_of is_ascii bytes then some bytes else none

ascii_decode-Utf8 : Utf8 ascii_decode
unfolding ascii_decode
ascii_decode-Utf8 = record {
  encodes = λ raw text h.
      let same : raw ≡ text = ground (arith, h) in
      let plain_text : all_of is_ascii text ≡ true = ground (arith, h) in
      encode_ascii text plain_text ∙ sym same;
  ascii = λ text h. ground (arith, h);
}

abbrev query : List ℕ
query = codes "select ';', `a` from t where x = 1; # end"

unfoldable outcome : ScanOutcome
unfolding category ascii_decode scan_sql scan_text run scan_token after_check line_comment
    block_comment block_comment_rest quoted quoted_rest word_rest symbol_char append_token
    starts_with is_bom is_whitespace is_line_end is_ascii is_ascii_alnum is_word_char
    is_rejected_category is_control check_char width widths upper_char upper slice drop byte_at
    is_comment is_symbol is_word is_semicolon significant drop_last_semicolon statement_tokens
    has_early_semicolon names_file upper_word upper_words check_statement contains_bom
outcome = scan_sql category ascii_decode query

abbrev scan_of : ScanOutcome → TokenScan
scan_of (accepts scan) = scan
scan_of _ = record { raw = []; tokens = [] }

query_has_ten_tokens : length (statement_tokens (scan_of outcome)) ≡ 10
unfolding outcome
query_has_ten_tokens = refl

two_statements :
    scan_sql category ascii_decode (codes "select 1; select 2")
    ≡ raises TokenScanReason.multi_statement
unfolding outcome
two_statements = refl

writes_a_file :
    scan_sql category ascii_decode (codes "select 1 Into outfile 'x'")
    ≡ raises TokenScanReason.into_outfile
unfolding outcome
writes_a_file = refl

scan_sql-answers_example :
    (scan_sql category ascii_decode query ≢ unicode_decode_error)
    × (scan_sql category ascii_decode query ≢ run_needs_fuel)
scan_sql-answers_example = scan_sql-answers category ascii_decode query ascii_decode-Utf8

scan_sql-Accepted_example :
    (scan_sql category ascii_decode query ≡ accepts (scan_of outcome))
    ↔ Accepted category ascii_decode query (scan_of outcome)
scan_sql-Accepted_example = scan_sql-Accepted category ascii_decode query (scan_of outcome)

query_is_accepted : scan_sql category ascii_decode query ≡ accepts (scan_of outcome)
unfolding outcome
query_is_accepted = refl

scan_sql-in_order_example : in_order 0 (length query) (scan_of outcome).tokens ≡ true
unfolding outcome
scan_sql-in_order_example =
    scan_sql-in_order category ascii_decode query (scan_of outcome) ascii_decode-Utf8 refl
