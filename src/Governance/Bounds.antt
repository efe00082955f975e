-- ===== src/Governance/Bounds.antt =====
-- Where the tokens of an accepted text stand.
use xiaowei_agent.Governance.Accepted.{scan_sql-Accepted}
use xiaowei_agent.Governance.Characters.{Category, width, widths}
use xiaowei_agent.Governance.Lexemes.{Tiles, finished, blank, covers}
use xiaowei_agent.Governance.Runs.{Lexeme-nonempty}
use xiaowei_agent.Governance.Scanner.{SqlToken}
use xiaowei_agent.Governance.SqlTokens.{TokenScan, scan_sql, accepts}
use xiaowei_agent.Governance.Utf8.{Utf8, length-encode}
use xiaowei_agent.Prelude.{
  string_eq, nat_eq, ltb, leb, length, ℕ, ◌+◌, ◌≤◌, ◌<◌, ◌≡◌, sym, ap, ◌∙◌, Bool, true, ◌&&◌,
  Option, List, [], ◌∷◌, ◌++◌, arith,
}

-- The tokens stand in order from the byte on and up to the last, each over at least one byte.
abbrev pub in_order : ℕ → ℕ → List SqlToken → Bool
in_order byte last [] = leb byte last
in_order byte last (t ∷ ts) =
    leb byte t.start_byte && ltb t.start_byte t.end_byte && in_order t.end_byte last ts

width-pos : (c : ℕ) → 0 < width c
unfolding width
width-pos c = ground arith

widths-append : (xs ys : List ℕ) → widths (xs ++ ys) ≡ widths xs + widths ys
unfolding widths
widths-append [] ys = omega arith
widths-append (x ∷ xs) ys = omega (arith, widths-append xs ys)

length-widths : (cs : List ℕ) → length cs ≤ widths cs
unfolding widths
length-widths [] = omega arith
length-widths (c ∷ cs) = omega (arith, width-pos c, length-widths cs)

Tiles-in_order :
    {category : ℕ → Category} {byte : ℕ} {text : List ℕ} {tokens : List SqlToken} (start last : ℕ)
    → start ≤ byte
    → last ≡ byte + widths text
    → Tiles category byte text tokens
    → in_order start last tokens ≡ true
unfolding widths
Tiles-in_order start last h e finished = ground arith
Tiles-in_order start last h e (blank {cs = cs} c f g rest) =
    Tiles-in_order start last (omega arith) (omega arith) rest
Tiles-in_order {category} {byte} start last h e
      (covers kind taken rest text end_ split moved shape clean later) =
    let whole : widths text ≡ widths taken + widths rest =
      ap widths split ∙ widths-append taken rest in
    let some_byte : byte < end_ =
      omega (arith, moved, length-widths taken, Lexeme-nonempty category taken rest shape) in
    let onward : in_order end_ last _ ≡ true =
      Tiles-in_order end_ last (omega arith) (omega (arith, e, whole, moved)) later in
    ground (arith, onward)

-- The tokens of an accepted text stand in order, none is empty, they do not overlap, and the last ends
-- within the bytes of the text.
pub scan_sql-in_order :
    (category : ℕ → Category) (decode : List ℕ → Option (List ℕ)) (raw : List ℕ) (scan : TokenScan)
    → Utf8 decode
    → scan_sql category decode raw ≡ accepts scan
    → in_order 0 (length raw) scan.tokens ≡ true
scan_sql-in_order category decode raw scan utf8 h =
    let a = (scan_sql-Accepted category decode raw scan).0 h in
    let bytes : length raw ≡ widths a.text =
      ap length (sym (utf8.encodes raw a.text a.decoded)) ∙ length-encode a.text in
    Tiles-in_order 0 (length raw) (omega arith) (omega (arith, bytes)) a.tiles
