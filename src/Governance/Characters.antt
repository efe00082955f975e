-- ===== src/Governance/Characters.antt =====
-- Characters and bytes as governance/sql_tokens.py reads them. A character is its code point, a text the
-- list of them, and a byte string the list of its bytes.
use Prim.Native.Char.{code}
use xiaowei_agent.Prelude.{
  string_eq, nat_eq, ltb, leb, if◌then◌else◌, ◌==◌, ℕ, ◌+◌, ◌-◌, String, Bool, true, false, not,
  ◌&&◌, ◌||◌, Option, none, some, List, [], ◌∷◌,
}

-- the categories of `unicodedata.category` that the scanner names
pub data Category : Type 0 where
  control format line_separator paragraph_separator other_category : Category

pub data TokenScanReason : Type 0 where
  empty too_long invalid_utf8 bom control_character ambiguous_punctuation hint_comment :
      TokenScanReason
  multi_statement into_outfile unterminated : TokenScanReason

unfoldable pub is_bom : ℕ → Bool
is_bom c = c == 65279

-- `char in _WHITESPACE`
unfoldable pub is_whitespace : ℕ → Bool
is_whitespace c = (c == 32) || (c == 9) || (c == 13) || (c == 10)

-- `char in _LINE_END`
unfoldable pub is_line_end : ℕ → Bool
is_line_end c = (c == 13) || (c == 10)

unfoldable pub is_ascii : ℕ → Bool
is_ascii c = ltb c 128

-- `str.isalnum` on an ASCII character
unfoldable pub is_ascii_alnum : ℕ → Bool
is_ascii_alnum c =
    (leb b'0' c && leb c b'9') || (leb b'A' c && leb c b'Z') || (leb b'a' c && leb c b'z')

unfoldable pub is_word_char : ℕ → Bool
is_word_char c = is_ascii c && (is_ascii_alnum c || (c == b'_') || (c == b'$'))

-- `category in _REJECTED_CATEGORIES`
unfoldable pub is_rejected_category : Category → Bool
is_rejected_category Category.format = true
is_rejected_category Category.line_separator = true
is_rejected_category Category.paragraph_separator = true
is_rejected_category _ = false

unfoldable pub is_control : Category → Bool
is_control Category.control = true
is_control _ = false

-- the reason why a character is refused, wherever it stands
unfoldable pub check_char : (ℕ → Category) → ℕ → Option TokenScanReason
check_char category c =
    if is_bom c
    then some TokenScanReason.bom
    else if (is_control (category c) && not (is_whitespace c)) || is_rejected_category (category c)
    then some TokenScanReason.control_character
    else none

-- `len(char.encode())`
unfoldable pub width : ℕ → ℕ
width c = if ltb c 128 then 1 else if ltb c 2048 then 2 else if ltb c 65536 then 3 else 4

unfoldable pub widths : List ℕ → ℕ
widths [] = 0
widths (c ∷ cs) = width c + widths cs

-- `str.upper` on an ASCII character
unfoldable pub upper_char : ℕ → ℕ
upper_char c = if leb b'a' c && leb c b'z' then c - 32 else c

unfoldable pub upper : List ℕ → List ℕ
upper [] = []
upper (c ∷ cs) = upper_char c ∷ upper cs

-- the code points of a text
abbrev pub codes : String → List ℕ
codes String.[] = []
codes (String.◌∷◌ c s) = code c ∷ codes s
