-- ===== src/Lexer/Progress.antt =====
-- What `next_token` consumes: at least a character, and for all but a STRING exactly the value of
-- the token.
use dbccpp_tiny.Common.{
  ℕ, ◌<◌, ◌≤◌, ◌==◌, Bool, true, false, not, ◌&&◌, ◌||◌, if◌then◌else◌, Bool-cases, inl, inr, [],
  ◌∷◌, length, length-append, get_or, ◌≡◌, refl, arith,
}
use dbccpp_tiny.Objects.{Text}
use dbccpp_tiny.Lexer.Types.{TokenType, string, end_of_file, is_type}
use dbccpp_tiny.Lexer.Cursor.{
  Cursor, cursor, next_line, next_column, Read, read_one, read_while, then_read, is_digit, is_alpha,
  is_word,
}
use dbccpp_tiny.Lexer.Keywords.{identifier_type}
use dbccpp_tiny.Lexer.Readers.{
  Lexed, token_at, has_hex, read_hex, read_digits, read_sign, read_fraction, read_exponent,
  read_number, read_string_from, read_string, read_first, read_identifier,
}
use dbccpp_tiny.Lexer.Tokenize.{single, next_token}
use dbccpp_tiny.Lexer.Reads.{
  read_hex-Reads, read_digits-Reads, read_sign-Reads, read_fraction-Reads, read_exponent-Reads,
}
use dbccpp_tiny.Lexer.Moves.{
  Moves, Moves-stay, Moves-step, Reads, read_while-Reads, read_one-Reads, then_read-Reads, if-Reads,
  Skips,
}

-- A token lies at `s`, it is no end of file, it is read up to `after`, and at least a character
-- is consumed.
pub record Tokens (s : Cursor) (t : Lexed) : Type 0 where
  pub text : Text
  pub moves : Moves s text t.after
  pub at_line : t.token.line ≡ s.line
  pub at_column : t.token.column ≡ s.column
  pub longer : 0 < length text
  pub no_end : is_type t.token.type end_of_file ≡ false
  pub slice : is_type t.token.type string ≡ false → text ≡ t.token.value

abbrev pub Plain : TokenType → Type 0
Plain type = is_type type end_of_file ≡ false

token_at-Tokens :
    (type : TokenType) (s : Cursor) (r : Read)
    → Plain type
    → 0 < length r.value
    → Reads s r
    → Tokens s (token_at type s r)
token_at-Tokens type s r plain some_text m = record {
  text = r.value;
  moves = m;
  at_line = refl;
  at_column = refl;
  longer = some_text;
  no_end = plain;
  slice = λ e. refl;
}

pub if-Tokens :
    (b : Bool) {s : Cursor} {t u : Lexed}
    → (b ≡ true → Tokens s t)
    → (b ≡ false → Tokens s u)
    → Tokens s (if b then t else u)
if-Tokens true m n = m refl
if-Tokens false m n = n refl

identifier_type-Plain : (value : Text) → Plain (identifier_type value)
unfolding identifier_type
identifier_type-Plain value = ground arith

length-then_read : (r : Read) (f : Cursor → Read) → length r.value ≤ length (then_read r f).value
length-then_read r f = omega (arith, length-append r.value (f r.after).value)

module _ (c : ℕ) (cs : Text) (line column : ℕ) where
  abbrev here : Cursor
  here = cursor (c ∷ cs) line column

  single-Tokens : (type : TokenType) → Plain type → Tokens here (single type here)
  unfolding single
  single-Tokens type plain = token_at-Tokens type here _ plain (omega arith) (read_one-Reads here)

  read_whole :
      (is_digit c || c == b'-') ≡ true → 0 < length (then_read (read_sign here) read_digits).value
  unfolding read_digits
  read_whole h = elim (Bool-cases (c == b'-')) [
    | inl e ↦ rw e (omega arith)
    | inr e ↦ ground (arith, h, e)
  ]

  read_number-Tokens : (is_digit c || c == b'-') ≡ true → Tokens here (read_number here)
  unfolding read_number read_hex
  read_number-Tokens h =
      let whole = then_read (read_sign here) read_digits in
      let fraction = then_read whole read_fraction in
      if-Tokens (has_hex here)
        (λ e. token_at-Tokens _ here _ refl (omega arith) (read_hex-Reads here))
        (λ e.
          token_at-Tokens _ here _ (ground arith)
            (omega (
              arith,
              read_whole h,
              length-then_read whole read_fraction,
              length-then_read fraction read_exponent,
            ))
            (then_read-Reads
              (then_read-Reads (then_read-Reads (read_sign-Reads here) read_digits-Reads)
                read_fraction-Reads)
              read_exponent-Reads))

  read_identifier-Tokens : (is_alpha c || c == b'_') ≡ true → Tokens here (read_identifier here)
  unfolding read_identifier
  read_identifier-Tokens h =
      let first : read_first here ≡ read_one here = rw h in
      token_at-Tokens _ here _
        (identifier_type-Plain (then_read (read_first here) (read_while is_word)).value)
        (rw first (omega arith))
        (then_read-Reads
          (if-Reads (is_alpha c || c == b'_') (read_one-Reads here) (Moves-stay here))
          (read_while-Reads _))

read_string_from-Skips :
    (cs : Text) (line column : ℕ)
    → Skips (cursor cs line column) (read_string_from cs line column).after
unfolding read_string_from
read_string_from-Skips [] line column = ([], Moves-stay _)
read_string_from-Skips (c ∷ []) line column = elim (Bool-cases (c == b'"')) [
  | inl e ↦ rw e (c ∷ [], Moves-step c [] line column (Moves-stay _))
  | inr e ↦ elim (Bool-cases (c == 0)) [
    | inl f ↦ rw (e, f) ([], Moves-stay _)
    | inr f ↦ rw (e, f) (c ∷ [], Moves-step c [] line column (Moves-stay _))
  ]
]
read_string_from-Skips (c ∷ d ∷ cs) line column =
    let line1 = next_line c line in
    let column1 = next_column c column in
    let (x, m) = read_string_from-Skips cs (next_line d line1) (next_column d column1) in
    let (y, n) = read_string_from-Skips (d ∷ cs) line1 column1 in
    elim (Bool-cases (c == b'"')) [
      | inl e ↦ rw e (c ∷ [], Moves-step c (d ∷ cs) line column (Moves-stay _))
      | inr e ↦ elim (Bool-cases (c == 0)) [
        | inl f ↦ rw (e, f) ([], Moves-stay _)
        | inr f ↦ elim (Bool-cases (c == 92 && (d == b'"' || d == 92))) [
          | inl g ↦
              rw (e, f, g)
                (c ∷ d ∷ x, Moves-step c (d ∷ cs) line column (Moves-step d cs line1 column1 m))
          | inr g ↦ rw (e, f, g) (c ∷ y, Moves-step c (d ∷ cs) line column n)
        ]
      ]
    ]

-- The text of a STRING is not its value: it has the quotes and the backslashes.
read_string-Tokens :
    (c : ℕ) (cs : Text) (line column : ℕ)
    → Tokens (cursor (c ∷ cs) line column) (read_string (cursor (c ∷ cs) line column))
unfolding read_string
read_string-Tokens c cs line column =
    let (x, m) = read_string_from-Skips cs (next_line c line) (next_column c column) in
    record {
      text = c ∷ x;
      moves = Moves-step c cs line column m;
      at_line = refl;
      at_column = refl;
      longer = omega arith;
      no_end = refl;
      slice = λ e. ground (arith, e);
    }

pub next_token-Tokens :
    (c : ℕ) (cs : Text) (line column : ℕ)
    → Tokens (cursor (c ∷ cs) line column) (next_token (cursor (c ∷ cs) line column))
unfolding next_token
next_token-Tokens c cs line column =
    let s = single-Tokens c cs line column in
    if-Tokens (c == b':') (λ _. s _ refl)
      λ _.
        if-Tokens (c == b';') (λ _. s _ refl)
          λ _.
            if-Tokens (c == b',') (λ _. s _ refl)
              λ _.
                if-Tokens (c == b'@') (λ _. s _ refl)
                  λ _.
                    if-Tokens (c == b'+') (λ _. s _ refl)
                      λ _.
                        if-Tokens (c == b'-' && not (is_digit (get_or cs 0 0))) (λ _. s _ refl)
                          λ _.
                            if-Tokens (c == b'|') (λ _. s _ refl)
                              λ _.
                                if-Tokens (c == b'(') (λ _. s _ refl)
                                  λ _.
                                    if-Tokens (c == b')') (λ _. s _ refl)
                                      λ _.
                                        if-Tokens (c == b'[') (λ _. s _ refl)
                                          λ _.
                                            if-Tokens (c == b']') (λ _. s _ refl)
                                              λ _.
                                                if-Tokens (c == b'"')
                                                  (λ _. read_string-Tokens c cs line column)
                                                  λ _.
                                                    if-Tokens
                                                      (is_digit c
                                                        || (c == b'-' && is_digit (get_or cs 0 0)))
                                                      (λ e.
                                                        read_number-Tokens c cs line column
                                                          (ground (arith, e)))
                                                      λ _.
                                                        if-Tokens (is_alpha c || c == b'_')
                                                          (λ e.
                                                            read_identifier-Tokens c cs line column
                                                            e)
                                                          (λ _. s _ refl)
