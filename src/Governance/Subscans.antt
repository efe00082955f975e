-- ===== src/Governance/Subscans.antt =====
-- What each part of the scanner takes from the text.
use xiaowei_agent.Contracts.Task.{is_set}
use xiaowei_agent.Governance.Characters.{
  Category, is_line_end, check_char, width, widths, is_word_char,
}
use xiaowei_agent.Governance.Lexemes.{all_of, CommentBody, ends, goes_on, begins, is_empty}
use xiaowei_agent.Governance.Scanner.{
  Position, Scan, after_check, line_comment, scanned, block_comment_rest, word_rest, starts_with,
}
use xiaowei_agent.Prelude.{
  string_eq, nat_eq, if◌then◌else◌, Bool-cases, ℕ, ◌+◌, ◌≡◌, refl, ap, inl, inr, Bool, true, not,
  none, List, [], ◌∷◌, ◌++◌, arith, ◌==◌, subst, ◌&&◌, sym, ◌∙◌, false, ◌||◌,
}

scanned-injective : {p q : Position} → scanned p ≡ scanned q → p ≡ q
scanned-injective h = ground (arith, h)

module _ (category : ℕ → Category) where
  abbrev pub all_clean : List ℕ → Bool
  all_clean = all_of (λ c. not (is_set (check_char category c)))

  -- a scan took characters of the shape, all of them clean, and moved over their bytes
  pub record Took (Shape : List ℕ → List ℕ → Type 0) (cs : List ℕ) (byte : ℕ) (p : Position)
      : Type 0 where
    pub taken : List ℕ
    pub split : cs ≡ taken ++ p.rest
    pub moved : p.byte ≡ byte + widths taken
    pub shape : Shape taken p.rest
    pub clean : all_clean taken ≡ true

  pub after_check-scanned :
      (c : ℕ) (next : Scan Position) (p : Position)
      → after_check category c next ≡ scanned p
      → (check_char category c ≡ none) × (next ≡ scanned p)
  unfolding after_check
  after_check-scanned c next p h = ground arith

  -- one more clean character in front
  pub Took-cons :
      (S T : List ℕ → List ℕ → Type 0) (c : ℕ) (cs : List ℕ) (byte : ℕ) (p : Position)
      → check_char category c ≡ none
      → ((taken rest : List ℕ) → S taken rest → T (c ∷ taken) rest)
      → Took S cs (byte + width c) p
      → Took T (c ∷ cs) byte p
  unfolding widths
  Took-cons S T c cs byte p ok_ build t = record {
    taken = c ∷ t.taken;
    split = ap (λ xs. c ∷ xs) t.split;
    moved = omega (arith, t.moved);
    shape = build t.taken p.rest t.shape;
    clean = ground (arith, t.clean, ok_);
  }

  pub Took-map :
      (S T : List ℕ → List ℕ → Type 0) (cs : List ℕ) (byte : ℕ) (p : Position)
      → ((taken rest : List ℕ) → S taken rest → T taken rest)
      → Took S cs byte p
      → Took T cs byte p
  Took-map S T cs byte p f t = record {
    taken = t.taken;
    split = t.split;
    moved = t.moved;
    shape = f t.taken p.rest t.shape;
    clean = t.clean;
  }

  Took-none :
      (S : List ℕ → List ℕ → Type 0) (cs : List ℕ) (byte : ℕ)
      → S [] cs
      → Took S cs byte (record { rest = cs; byte = byte })
  unfolding widths
  Took-none S cs byte s = record {
    taken = [];
    split = refl;
    moved = omega arith;
    shape = s;
    clean = refl;
  }

  -- a scan that stops where it is
  pub Took-stop :
      (S : List ℕ → List ℕ → Type 0) (cs : List ℕ) (byte : ℕ) (p : Position)
      → S [] cs
      → scanned (record { rest = cs; byte = byte }) ≡ scanned p
      → Took S cs byte p
  unfolding widths
  Took-stop S cs byte p s h =
      subst (λ q. Took S cs byte q) (scanned-injective h) (Took-none S cs byte s)

  abbrev pub InLine : List ℕ → List ℕ → Type 0
  InLine taken rest =
      (all_of (λ c. not (is_line_end c)) taken ≡ true)
      × ((begins is_line_end rest || is_empty rest) ≡ true)

  pub line_comment-Took :
      (cs : List ℕ) (byte : ℕ) (p : Position)
      → line_comment category cs byte ≡ scanned p
      → Took InLine cs byte p
  unfolding line_comment
  line_comment-Took [] byte p h = Took-stop InLine [] byte p (refl, refl) h
  line_comment-Took (c ∷ cs) byte p h = elim (Bool-cases (is_line_end c)) [
    | inl e ↦
        Took-stop InLine (c ∷ cs) byte p (refl, ground (arith, e))
          (rw (line_comment, e, if◌then◌else◌) at h)
    | inr e ↦
        let (clean, next) = after_check-scanned c _ p (rw (line_comment, e, if◌then◌else◌) at h) in
        Took-cons InLine InLine c cs byte p clean (λ taken rest s. (ground (arith, e, s.0), s.1))
          (line_comment-Took cs (byte + width c) p next)
  ]

  abbrev pub Word : List ℕ → List ℕ → Type 0
  Word taken rest = (all_of is_word_char taken ≡ true) × (begins is_word_char rest ≡ false)

  pub word_rest-Took :
      (cs : List ℕ) (byte : ℕ) (p : Position)
      → word_rest category cs byte ≡ scanned p
      → Took Word cs byte p
  unfolding word_rest
  word_rest-Took [] byte p h = Took-stop Word [] byte p (refl, refl) h
  word_rest-Took (c ∷ cs) byte p h = elim (Bool-cases (is_word_char c)) [
    | inr e ↦ Took-stop Word (c ∷ cs) byte p (refl, e) (rw (word_rest, e, if◌then◌else◌) at h)
    | inl e ↦
        let (clean, next) = after_check-scanned c _ p (rw (word_rest, e, if◌then◌else◌) at h) in
        Took-cons Word Word c cs byte p clean (λ taken rest s. (ground (arith, e, s.0), s.1))
          (word_rest-Took cs (byte + width c) p next)
  ]

  pub CommentBody-starts :
      (taken rest : List ℕ)
      → CommentBody taken
      → (c : ℕ) → starts_with c (taken ++ rest) ≡ starts_with c taken
  unfolding starts_with
  CommentBody-starts _ rest ends c = refl
  CommentBody-starts _ rest (goes_on d free body) c = refl

  abbrev pub Commented : List ℕ → List ℕ → Type 0
  Commented taken rest = CommentBody taken

  unfoldable pub Nothing : List ℕ → List ℕ → Type 0
  Nothing taken rest = taken ≡ []

  pub block_comment_rest-Took :
      (cs : List ℕ) (byte : ℕ) (p : Position)
      → block_comment_rest category cs byte ≡ scanned p
      → Took Commented cs byte p
  unfolding block_comment_rest Nothing starts_with widths
  block_comment_rest-Took [] byte p h = absurd (ground (arith, h))
  block_comment_rest-Took (c ∷ []) byte p h =
      absurd (ground (arith, (after_check-scanned c _ p h).1))
  block_comment_rest-Took (c ∷ d ∷ ds) byte p h = elim (Bool-cases ((c == b'*') && (d == b'/'))) [
    | inl e ↦
        let (clean, next) =
          after_check-scanned c _ p (rw (block_comment_rest, e, if◌then◌else◌) at h) in
        let (clean', next') = after_check-scanned d _ p next in
        let star : c ≡ b'*' = ground (arith, e) in
        let slash : d ≡ b'/' = ground (arith, e) in
        Took-cons _ Commented c (d ∷ ds) byte p clean (λ taken rest s. s)
          (Took-cons Nothing (λ taken rest. CommentBody (c ∷ taken)) d ds (byte + width c) p clean'
            (λ taken rest s. rw (star, slash, s) ends)
            (Took-stop Nothing ds (byte + width c + width d) p refl next'))
    | inr e ↦
        let (clean, next) =
          after_check-scanned c _ p (rw (block_comment_rest, e, if◌then◌else◌) at h) in
        let t = block_comment_rest-Took (d ∷ ds) (byte + width c) p next in
        let head : starts_with b'/' t.taken ≡ (d == b'/') =
          sym (CommentBody-starts t.taken p.rest t.shape b'/')
          ∙ ap (starts_with b'/') (sym t.split) in
        record {
          taken = c ∷ t.taken;
          split = ap (λ xs. c ∷ xs) t.split;
          moved = omega (arith, t.moved);
          shape = goes_on c (ground (arith, head, e)) t.shape;
          clean = ground (arith, t.clean, clean);
        }
  ]
