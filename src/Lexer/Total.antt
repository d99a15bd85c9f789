-- ===== src/Lexer/Total.antt =====
-- `tokenize` ends, and its tokens lie in the input where they say.
use dbccpp_tiny.Common.{
  ℕ, zero, suc, ◌+◌, ◌<◌, ◌==◌, false, Bool-cases, inl, inr, List, [], ◌∷◌, ◌++◌, some, length,
  length-append, ◌≡◌, refl, ap, ◌∙◌, arith,
}
use dbccpp_tiny.Objects.{Text}
use dbccpp_tiny.Lexer.Types.{string, end_of_file, is_type, Token}
use dbccpp_tiny.Lexer.Cursor.{Cursor, cursor, peek}
use dbccpp_tiny.Lexer.Tokenize.{next_token, end_token, skip, tokenize_from, initial, tokenize}
use dbccpp_tiny.Lexer.Moves.{
  line_behind, column_behind, Moves, Moves-stay, Moves-trans, Skips, skip-Skips,
}
use dbccpp_tiny.Lexer.Progress.{Tokens, next_token-Tokens}

-- The token stands in `rest`, which is what follows `before` in the input, behind some text that
-- is skipped: its line and column are those there, and unless it is a STRING its value is the text
-- that it takes.
pub record Found (before rest : Text) (t : Token) : Type 0 where
  pub blank : Text
  pub text : Text
  pub behind : Text
  pub whole : rest ≡ blank ++ (text ++ behind)
  pub at_line : t.line ≡ line_behind (before ++ blank) 1
  pub at_column : t.column ≡ column_behind (before ++ blank) 1
  pub slice : is_type t.type string ≡ false → text ≡ t.value
  pub no_end : is_type t.type end_of_file ≡ false

-- The tokens stand one behind the other, and then comes an end of file.
abbrev pub Laid : Text → Text → List Token → Type 0
Laid before rest [] = ⊥
Laid before rest (t ∷ []) = t.type ≡ end_of_file
Laid before rest (t ∷ u ∷ ts) =
    (f : Found before rest t) × Laid (before ++ (f.blank ++ f.text)) f.behind (u ∷ ts)

rest-length :
    {s t : Cursor} {text : Text} → Moves s text t → length s.rest ≡ length text + length t.rest
rest-length {s} {t} {text} m = ap length m.split ∙ length-append text t.rest

-- A round that reads a token.
next_token-Lexed : (s : Cursor) → (peek s == 0) ≡ false → Tokens s (next_token s)
next_token-Lexed s h = by s.rest s.line s.column h
  where
    by :
        (cs : Text) (line column : ℕ)
        → (peek (cursor cs line column) == 0) ≡ false
        → Tokens (cursor cs line column) (next_token (cursor cs line column))
    by [] line column h = absurd (ground (arith, h))
    by (c ∷ cs) line column h = next_token-Tokens c cs line column

Laid-cons :
    (before rest : Text) (t : Token) (ts : List Token) (f : Found before rest t)
    → Laid (before ++ (f.blank ++ f.text)) f.behind ts
    → Laid before rest (t ∷ ts)
Laid-cons before rest t [] f laid = absurd laid
Laid-cons before rest t (u ∷ ts) f laid = (f, laid)

tokenize_from-Laid :
    (input : Text) (fuel : ℕ) (s : Cursor) (before : Text)
    → length s.rest < fuel
    → Moves (initial input) before s
    → (ts : List Token) × (tokenize_from fuel s ≡ some ts) × Laid before s.rest ts
unfolding tokenize_from skip
tokenize_from-Laid input zero s before enough m = elim enough [ ]
tokenize_from-Laid input (suc fuel) s before enough m =
    let d = skip s in
    let (blank, skipped) : Skips s d = skip-Skips s in
    let at = Moves-trans m skipped in
    elim (Bool-cases (peek d == 0)) [
      | inl e ↦ (end_token d ∷ [], rw e, refl)
      | inr e ↦
          let t = next_token-Lexed d e in
          let step = next_token d in
          let (ts, done, laid) =
            tokenize_from-Laid input fuel step.after (before ++ (blank ++ t.text))
              (omega (arith, rest-length skipped, rest-length t.moves, t.longer))
              (Moves-trans m (Moves-trans skipped t.moves)) in
          let f : Found before s.rest step.token = record {
            blank = blank;
            text = t.text;
            behind = step.after.rest;
            whole = skipped.split ∙ ap (blank ++◌) t.moves.split;
            at_line = t.at_line ∙ at.to_line;
            at_column = t.at_column ∙ at.to_column;
            slice = t.slice;
            no_end = t.no_end;
          } in
          (step.token ∷ ts, rw (e, done), Laid-cons before s.rest step.token ts f laid)
    ]

-- For every input the lexer gives a list of tokens: one end of file, at the end, and before it
-- tokens that stand in the input, one behind the other, at the line and the column that they
-- name; the value of each but a STRING is the text that stands there.
pub tokenize-Laid :
    (input : Text) → (ts : List Token) × (tokenize input ≡ some ts) × Laid [] input ts
unfolding tokenize
tokenize-Laid input =
    tokenize_from-Laid input (suc (length input)) (initial input) [] (omega arith)
      (Moves-stay (initial input))
