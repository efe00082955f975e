-- ===== src/Governance/Branches.antt =====
-- What each branch of the scanner's round takes is a token of the lexical grammar.
use xiaowei_agent.Governance.Characters.{
  Category, is_line_end, is_ascii, is_word_char, check_char, width, is_whitespace,
}
use xiaowei_agent.Governance.Lexemes.{
  Lexeme, dashes, hash, word_lexeme, symbol_lexeme, CommentBody, block, starts_longer,
}
use xiaowei_agent.Governance.Quotes.{Quoted, quoted_rest-Took}
use xiaowei_agent.Governance.Scanner.{
  TokenKind, Position, starts_with, line_comment, block_comment, quoted, word_rest, symbol_char,
  scanned, after_check, block_comment_rest,
}
use xiaowei_agent.Governance.Subscans.{
  Took, after_check-scanned, Took-cons, Took-stop, InLine, line_comment-Took, Word, word_rest-Took,
  Commented, block_comment_rest-Took, CommentBody-starts,
}
use xiaowei_agent.Prelude.{
  string_eq, nat_eq, if◌then◌else◌, ℕ, ◌+◌, ◌≡◌, refl, Bool, true, false, none, List, [], ◌∷◌,
  arith, ap, ◌||◌, ◌++◌,
}

-- nothing was taken, and the text is left
Alone : List ℕ → List ℕ → List ℕ → Type 0
Alone cs taken rest = (taken ≡ []) × (rest ≡ cs)

module _ (category : ℕ → Category) where
  -- two clean characters in front
  Took-pair :
      (S T : List ℕ → List ℕ → Type 0) (c d : ℕ) (ds : List ℕ) (byte : ℕ) (p : Position)
      → check_char category c ≡ none
      → check_char category d ≡ none
      → ((taken rest : List ℕ) → S taken rest → T (c ∷ d ∷ taken) rest)
      → Took category S ds (byte + width c + width d) p
      → Took category T (c ∷ d ∷ ds) byte p
  Took-pair S T c d ds byte p clean clean' build t =
      Took-cons category (λ taken rest. T (c ∷ taken) rest) T c (d ∷ ds) byte p clean
        (λ taken rest s. s)
        (Took-cons category S (λ taken rest. T (c ∷ taken) rest) d ds (byte + width c) p clean'
          build t)

  line_step :
      (c : ℕ) (cs : List ℕ) (byte : ℕ) (p : Position)
      → is_line_end c ≡ false
      → line_comment category (c ∷ cs) byte ≡ scanned p
      → (check_char category c ≡ none) × (line_comment category cs (byte + width c) ≡ scanned p)
  unfolding line_comment
  line_step c cs byte p e h =
      after_check-scanned category c _ p (rw (line_comment, e, if◌then◌else◌) at h)

  pub dashes-Took :
      (cs : List ℕ) (byte : ℕ) (p : Position)
      → starts_with b'-' cs ≡ true
      → line_comment category (b'-' ∷ cs) byte ≡ scanned p
      → Took category (Lexeme TokenKind.comment) (b'-' ∷ cs) byte p
  unfolding starts_with is_line_end
  dashes-Took [] byte p s h = absurd (ground (arith, s))
  dashes-Took (d ∷ ds) byte p s h =
      let dash : d ≡ b'-' = ground (arith, s) in
      let (clean, next) = line_step b'-' (d ∷ ds) byte p refl h in
      let (clean', next') = line_step d ds (byte + width b'-') p (ground (arith, dash)) next in
      Took-pair (InLine category) (Lexeme TokenKind.comment) b'-' d ds byte p clean clean'
        (λ taken rest q. rw dash (dashes taken rest q.0 q.1))
        (line_comment-Took category ds (byte + width b'-' + width d) p next')

  pub hash-Took :
      (cs : List ℕ) (byte : ℕ) (p : Position)
      → line_comment category (b'#' ∷ cs) byte ≡ scanned p
      → Took category (Lexeme TokenKind.comment) (b'#' ∷ cs) byte p
  unfolding is_line_end
  hash-Took cs byte p h =
      let (clean, next) = line_step b'#' cs byte p refl h in
      Took-cons category (InLine category) (Lexeme TokenKind.comment) b'#' cs byte p clean
        (λ taken rest q. hash taken rest q.0 q.1)
        (line_comment-Took category cs (byte + width b'#') p next)

  Took-split :
      (S : List ℕ → List ℕ → Type 0) (cs : List ℕ) (byte : ℕ) (p : Position)
      → Took category S cs byte p
      → Took category (λ taken rest. S taken rest × (cs ≡ taken ++ rest)) cs byte p
  Took-split S cs byte p t = record {
    taken = t.taken;
    split = t.split;
    moved = t.moved;
    shape = (t.shape, t.split);
    clean = t.clean;
  }

  block_comment-open :
      (c d : ℕ) (ds : List ℕ) (byte : ℕ) (p : Position)
      → block_comment category (c ∷ d ∷ ds) byte ≡ scanned p
      → ((starts_with b'+' ds || starts_with b'!' ds) ≡ false)
        × (after_check category c
              (after_check category d (block_comment_rest category ds (byte + width c + width d)))
            ≡ scanned p)
  unfolding block_comment
  block_comment-open c d ds byte p h = ground arith

  pub block-Took :
      (cs : List ℕ) (byte : ℕ) (p : Position)
      → starts_with b'*' cs ≡ true
      → block_comment category (b'/' ∷ cs) byte ≡ scanned p
      → Took category (Lexeme TokenKind.comment) (b'/' ∷ cs) byte p
  unfolding starts_with block_comment
  block-Took [] byte p s h = absurd (ground (arith, s))
  block-Took (d ∷ ds) byte p s h =
      let star : d ≡ b'*' = ground (arith, s) in
      let (free, h') = block_comment-open b'/' d ds byte p h in
      let (clean, next) = after_check-scanned category b'/' _ p h' in
      let (clean', next') = after_check-scanned category d _ p next in
      Took-pair (λ taken rest. CommentBody taken × (ds ≡ taken ++ rest)) (Lexeme TokenKind.comment)
        b'/' d ds byte p clean clean'
        (λ taken rest q.
          let same = CommentBody-starts category taken rest q.0 in
          rw star (
            block taken rest q.0 (ground (arith, same b'+', ap (starts_with b'+') q.1, free))
              (ground (arith, same b'!', ap (starts_with b'!') q.1, free))))
        (Took-split (Commented category) ds (byte + width b'/' + width d) p
          (block_comment_rest-Took category ds (byte + width b'/' + width d) p next'))

  pub quoted-Took :
      (quote : ℕ) (backslash : Bool) (cs : List ℕ) (byte : ℕ) (p : Position)
      → quoted category quote backslash (quote ∷ cs) byte ≡ scanned p
      → Took category
          (λ taken rest.
            (body : List ℕ) × (taken ≡ quote ∷ body) × Quoted category quote backslash body rest)
          (quote ∷ cs)
          byte
          p
  unfolding quoted
  quoted-Took quote backslash cs byte p h =
      let (clean, next) = after_check-scanned category quote _ p h in
      Took-cons category (Quoted category quote backslash) _ quote cs byte p clean
        (λ taken rest q. (taken, refl, q))
        (quoted_rest-Took category quote backslash cs (byte + width quote) p next)

  pub word-Took :
      (c : ℕ) (cs : List ℕ) (byte : ℕ) (p : Position)
      → is_word_char c ≡ true
      → word_rest category (c ∷ cs) byte ≡ scanned p
      → Took category (Lexeme TokenKind.word) (c ∷ cs) byte p
  unfolding word_rest
  word-Took c cs byte p e h =
      let (clean, next) =
        after_check-scanned category c _ p (rw (word_rest, e, if◌then◌else◌) at h) in
      Took-cons category (Word category) (Lexeme TokenKind.word) c cs byte p clean
        (λ taken rest q. word_lexeme c taken rest (ground (arith, e, q.0)) q.1)
        (word_rest-Took category cs (byte + width c) p next)

  pub symbol-Took :
      (c : ℕ) (cs : List ℕ) (byte : ℕ) (p : Position)
      → is_ascii c ≡ true
      → is_whitespace c ≡ false
      → starts_longer c cs ≡ false
      → symbol_char category (c ∷ cs) byte ≡ scanned p
      → Took category (Lexeme TokenKind.symbol) (c ∷ cs) byte p
  unfolding symbol_char Alone
  symbol-Took c cs byte p e blank_ alone h =
      let (clean, next) = after_check-scanned category c _ p h in
      Took-cons category (Alone cs) (Lexeme TokenKind.symbol) c cs byte p clean
        (λ taken rest (none_, same). rw (none_, same) (symbol_lexeme c cs e blank_ alone))
        (Took-stop category (Alone cs) cs (byte + width c) p (refl, refl) next)
