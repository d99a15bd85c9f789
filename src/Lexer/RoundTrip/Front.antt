-- ===== src/Lexer/RoundTrip/Front.antt =====
-- The first words of a text are read, whatever stands behind them.
use dbccpp_tiny.Common.{
  ℕ, zero, suc, ◌+◌, ◌==◌, true, false, get_or, List, [], ◌∷◌, ◌++◌, All, Option-cases, inl, inr,
  some, no_result, some_inj, ◌≡◌, refl, ap, sym, ◌∙◌,
}
use dbccpp_tiny.Objects.{Text}
use dbccpp_tiny.Lexer.Types.{Token}
use dbccpp_tiny.Lexer.Cursor.{Cursor, cursor, peek, is_digit, is_space}
use dbccpp_tiny.Lexer.Tokenize.{single, next_token, skip, tokenize_from}
use dbccpp_tiny.Lexer.RoundTrip.Starts.{digit-no_space, digit-no_slash, digit-no_nul, bar}
use dbccpp_tiny.Lexer.RoundTrip.Words.{
  Word, IsWord, spell, kind_of, kind, word-Reads, next_token-digits,
}
use dbccpp_tiny.Lexer.RoundTrip.Whole.{
  Clear, spell-Clear, skip-Clear, skip-blank, round-word, round-none,
}

-- The lexer stands in front of a text, and gives these tokens from there on.
pub record Before (text : Text) (ts : List Token) : Type 0 where
  pub fuel : ℕ
  pub state : Cursor
  pub line : ℕ
  pub column : ℕ
  pub skipped : skip state ≡ cursor text line column
  pub given : tokenize_from fuel state ≡ some ts

-- A round of the loop in front of a text.
record Round (d : Cursor) (ts : List Token) : Type 0 where
  fuel : ℕ
  others : List Token
  whole : ts ≡ (next_token d).token ∷ others
  given : tokenize_from fuel (next_token d).after ≡ some others

round :
    (fuel : ℕ) (s d : Cursor) (ts : List Token)
    → skip s ≡ d
    → (peek d == 0) ≡ false
    → tokenize_from fuel s ≡ some ts
    → Round d ts
unfolding tokenize_from
round zero s d ts e h given = absurd (no_result refl given)
round (suc fuel) s d ts e h given = elim (Option-cases (tokenize_from fuel (next_token d).after)) [
  | inl stuck ↦ absurd (no_result (round-none fuel s d e h stuck) given)
  | inr (others, more) ↦ record {
    fuel = fuel;
    others = others;
    whole = some_inj (sym given ∙ round-word fuel s d others e h more);
    given = more;
  }
]

-- A blank leads to the text behind it.
blank-Before :
    (fuel : ℕ) (s : Cursor) (rest : Text) (ts : List Token)
    → s.rest ≡ b' ' ∷ rest
    → Clear rest
    → tokenize_from fuel s ≡ some ts
    → Before rest ts
blank-Before fuel s rest ts e clear given = record {
  fuel = fuel;
  state = s;
  line = s.line;
  column = s.column + 1;
  skipped =
      ap (λ t. skip (cursor t s.line s.column)) e
      ∙ skip-blank rest s.line s.column
      ∙ skip-Clear rest s.line (s.column + 1) clear;
  given = given;
}

-- A word with a blank behind it.
pub word-Before :
    (w : Word) (rest : Text) (ts : List Token)
    → IsWord w
    → Clear rest
    → Before (spell w (b' ' ∷ rest)) ts
    → (t : Token) × (others : List Token) × (ts ≡ t ∷ others)
      × (kind t ≡ kind_of w)
      × Before rest others
word-Before w rest ts p clear h =
    let d = cursor (spell w (b' ' ∷ rest)) h.line h.column in
    let here = spell-Clear w (b' ' ∷ rest) p in
    let more_left = ap (λ t. get_or t 0 0 == 0) here.whole ∙ here.no_nul in
    let r = round h.fuel h.state d ts h.skipped more_left h.given in
    let read = word-Reads w rest h.line h.column p in
    (
      (next_token d).token,
      r.others,
      r.whole,
      read.token,
      blank-Before r.fuel (next_token d).after rest r.others read.left clear r.given,
    )

bar-Clear : (rest : Text) → Clear (b'|' ∷ rest)
unfolding is_space
bar-Clear rest = record {
  first = b'|';
  others = rest;
  whole = refl;
  no_space = refl;
  no_slash = refl;
  no_nul = refl;
}

pub digits-Clear :
    (c : ℕ) (cs rest : Text) → All (λ d. is_digit d ≡ true) (c ∷ cs) → Clear (c ∷ (cs ++ rest))
digits-Clear c cs rest (p, ps) = record {
  first = c;
  others = cs ++ rest;
  whole = refl;
  no_space = digit-no_space c p;
  no_slash = digit-no_slash c p;
  no_nul = digit-no_nul c p;
}

-- Digits and a bar: two tokens.
pub digits_bar-Before :
    (c : ℕ) (cs rest : Text) (ts : List Token)
    → All (λ d. is_digit d ≡ true) (c ∷ cs)
    → Before (c ∷ (cs ++ (b'|' ∷ rest))) ts
    → (t : Token) × (u : Token) × (others : List Token) × (ts ≡ t ∷ u ∷ others)
      × (t.value ≡ c ∷ cs)
      × (u.value ≡ b'|' ∷ [])
unfolding next_token single
digits_bar-Before c cs rest ts p h =
    let d = cursor (c ∷ (cs ++ (b'|' ∷ rest))) h.line h.column in
    let first = round h.fuel h.state d ts h.skipped (digit-no_nul c p.0) h.given in
    let (token, left) = next_token-digits c cs rest bar h.line h.column p in
    let s = (next_token d).after in
    let e = cursor (b'|' ∷ rest) s.line s.column in
    let here =
      ap (λ t. skip (cursor t s.line s.column)) left
      ∙ skip-Clear (b'|' ∷ rest) s.line s.column (bar-Clear rest) in
    let second = round first.fuel s e first.others here refl first.given in
    (
      (next_token d).token,
      (next_token e).token,
      second.others,
      first.whole ∙ ap ((next_token d).token ∷◌) second.whole,
      ap (λ k. k.1) token,
      refl,
    )
