-- ===== src/Governance/Utf8.antt =====
-- UTF-8 as the scanner relies on it: the bytes of a character, and what is asked of the decoder, which is
-- Python's own.
use Prim.Native.Nat.{◌/◌, ◌%◌}
use xiaowei_agent.Governance.Characters.{is_ascii, width, widths}
use xiaowei_agent.Governance.Lexemes.{all_of}
use xiaowei_agent.Governance.SqlTokens.{drop}
use xiaowei_agent.Prelude.{
  string_eq, nat_eq, ltb, if◌then◌else◌, length, take, ℕ, zero, suc, ◌+◌, ◌≡◌, refl, sym, ap, ◌∙◌,
  true, Option, some, List, [], ◌∷◌, ◌++◌, arith,
}

-- `char.encode()`
unfoldable pub encode_char : ℕ → List ℕ
encode_char c =
    if ltb c 128
    then c ∷ []
    else if ltb c 2048
    then (192 + c / 64) ∷ (128 + c % 64) ∷ []
    else if ltb c 65536
    then (224 + c / 4096) ∷ (128 + (c / 64) % 64) ∷ (128 + c % 64) ∷ []
    else (240 + c / 262144) ∷ (128 + (c / 4096) % 64) ∷ (128 + (c / 64) % 64) ∷ (128 + c % 64) ∷ []

unfoldable pub encode : List ℕ → List ℕ
encode [] = []
encode (c ∷ cs) = encode_char c ++ encode cs

-- What is decoded is what encodes to the bytes, and ASCII decodes to itself.
pub record Utf8 (decode : List ℕ → Option (List ℕ)) : Type 0 where
  pub encodes : (raw text : List ℕ) → decode raw ≡ some text → encode text ≡ raw
  pub ascii : (text : List ℕ) → all_of is_ascii text ≡ true → decode text ≡ some text

length-encode_char : (c : ℕ) → length (encode_char c) ≡ width c
unfolding encode_char width
length-encode_char c = ground arith

length-append : (xs ys : List ℕ) → length (xs ++ ys) ≡ length xs + length ys
length-append [] ys = omega arith
length-append (x ∷ xs) ys = omega (arith, length-append xs ys)

pub length-encode : (cs : List ℕ) → length (encode cs) ≡ widths cs
unfolding encode widths
length-encode [] = refl
length-encode (c ∷ cs) =
    omega (arith, length-append (encode_char c) (encode cs), length-encode_char c, length-encode cs)

append_assoc : (xs ys zs : List ℕ) → (xs ++ ys) ++ zs ≡ xs ++ (ys ++ zs)
append_assoc [] ys zs = refl
append_assoc (x ∷ xs) ys zs = ap (λ l. x ∷ l) (append_assoc xs ys zs)

pub encode-append : (xs ys : List ℕ) → encode (xs ++ ys) ≡ encode xs ++ encode ys
unfolding encode
encode-append [] ys = refl
encode-append (x ∷ xs) ys =
    ap (λ l. encode_char x ++ l) (encode-append xs ys)
    ∙ sym (append_assoc (encode_char x) (encode xs) (encode ys))

pub encode_ascii : (cs : List ℕ) → all_of is_ascii cs ≡ true → encode cs ≡ cs
unfolding encode encode_char is_ascii
encode_ascii [] h = refl
encode_ascii (c ∷ cs) h = ground (arith, encode_ascii cs)

pub drop_add : (n k m : ℕ) (raw : List ℕ) → m ≡ n + k → drop m raw ≡ drop k (drop n raw)
unfolding drop
drop_add zero k m raw h = let same : m ≡ k = omega arith in ap (λ i. drop i raw) same
drop_add (suc n) k zero raw h = absurd (omega arith)
drop_add (suc n) zero (suc m) [] h = refl
drop_add (suc n) (suc k) (suc m) [] h = refl
drop_add (suc n) k (suc m) (x ∷ raw) h = drop_add n k m raw (omega arith)

pub drop-append : (xs ys : List ℕ) → drop (length xs) (xs ++ ys) ≡ ys
unfolding drop
drop-append [] ys = refl
drop-append (x ∷ xs) ys = drop-append xs ys

pub take-append : (xs ys : List ℕ) → take (length xs) (xs ++ ys) ≡ xs
take-append [] ys = refl
take-append (x ∷ xs) ys = ap (λ l. x ∷ l) (take-append xs ys)
