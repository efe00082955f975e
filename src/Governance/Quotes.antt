-- ===== src/Governance/Quotes.antt =====
-- What the scan of a quoted text takes.
use xiaowei_agent.Governance.Characters.{Category, check_char, width}
use xiaowei_agent.Governance.Lexemes.{QuotedBody, closes, doubled, escaped, plain}
use xiaowei_agent.Governance.Scanner.{Position, starts_with, quoted_rest, scanned}
use xiaowei_agent.Governance.Subscans.{Took, after_check-scanned, Took-cons, Took-stop}
use xiaowei_agent.Prelude.{
  string_eq, nat_eq, Bool-cases, ◌==◌, ℕ, ◌≡◌, inl, inr, Bool, false, ◌&&◌, List, [], ◌∷◌, arith,
  if◌then◌else◌, ◌+◌, refl, true, none,
}

module _ (category : ℕ → Category) (quote : ℕ) (backslash : Bool) where
  abbrev pub Quoted : List ℕ → List ℕ → Type 0
  Quoted taken rest = QuotedBody quote backslash taken × (starts_with quote rest ≡ false)

  -- the closing quote was taken
  Closed : List ℕ → List ℕ → Type 0
  Closed taken rest = (taken ≡ []) × (starts_with quote rest ≡ false)

  -- the scan that ends with the closing quote
  close-Took :
      (c : ℕ) (cs : List ℕ) (byte : ℕ) (p : Position)
      → check_char category c ≡ none
      → c ≡ quote
      → starts_with quote cs ≡ false
      → scanned (record { rest = cs; byte = byte + width c }) ≡ scanned p
      → Took category Quoted (c ∷ cs) byte p
  unfolding Closed
  close-Took c cs byte p clean same other h =
      Took-cons category Closed Quoted c cs byte p clean
        (λ taken rest s. (rw (s.0, same) closes, s.1))
        (Took-stop category Closed cs (byte + width c) p (refl, other) h)

  -- two characters, and then the rest of the quoted text
  pair-Took :
      (c d : ℕ) (ds : List ℕ) (byte : ℕ) (p : Position)
      → check_char category c ≡ none
      → check_char category d ≡ none
      → ((cs : List ℕ) → QuotedBody quote backslash cs → QuotedBody quote backslash (c ∷ d ∷ cs))
      → Took category Quoted ds (byte + width c + width d) p
      → Took category Quoted (c ∷ d ∷ ds) byte p
  pair-Took c d ds byte p clean clean' build t =
      Took-cons category (λ taken rest. Quoted (c ∷ taken) rest) Quoted c (d ∷ ds) byte p clean
        (λ taken rest s. s)
        (Took-cons category Quoted (λ taken rest. Quoted (c ∷ taken) rest) d ds (byte + width c) p
          clean' (λ taken rest s. (build taken s.0, s.1)) t)

  pub quoted_rest-Took :
      (cs : List ℕ) (byte : ℕ) (p : Position)
      → quoted_rest category quote backslash cs byte ≡ scanned p
      → Took category Quoted cs byte p
  unfolding quoted_rest starts_with
  quoted_rest-Took [] byte p h = absurd (ground (arith, h))
  quoted_rest-Took (c ∷ []) byte p h =
      let (clean, next) = after_check-scanned category c _ p h in
      let same : c ≡ quote = ground (arith, next) in
      close-Took c [] byte p clean same refl (ground (arith, next))
  quoted_rest-Took (c ∷ d ∷ ds) byte p h =
      let (clean, next) = after_check-scanned category c _ p h in
      elim (Bool-cases (backslash && (c == b'\\'))) [
        | inl e ↦
            let (clean', rest) =
              after_check-scanned category d _ p (rw (e, if◌then◌else◌) at next) in
            let slash : c ≡ b'\\' = ground (arith, e) in
            let on : backslash ≡ true = ground (arith, e) in
            pair-Took c d ds byte p clean clean' (λ cs s. rw slash (escaped d on s))
              (quoted_rest-Took ds (byte + width c + width d) p rest)
        | inr e ↦ elim (Bool-cases (c == quote)) [
          | inl f ↦ elim (Bool-cases (d == quote)) [
            | inl g ↦
                let (clean', rest) =
                  after_check-scanned category d _ p (rw (e, f, g, if◌then◌else◌) at next) in
                let first : c ≡ quote = ground (arith, f) in
                let second : d ≡ quote = ground (arith, g) in
                pair-Took c d ds byte p clean clean' (λ cs s. rw (first, second) (doubled s))
                  (quoted_rest-Took ds (byte + width c + width d) p rest)
            | inr g ↦
                close-Took c (d ∷ ds) byte p clean (ground (arith, f)) g
                  (rw (e, f, g, if◌then◌else◌) at next)
          ]
          | inr f ↦
              Took-cons category Quoted Quoted c (d ∷ ds) byte p clean
                (λ taken rest s. (plain c (ground (arith, f)) e s.0, s.1))
                (quoted_rest-Took (d ∷ ds) (byte + width c) p (rw (e, f, if◌then◌else◌) at next))
        ]
      ]
