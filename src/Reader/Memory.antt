-- ===== src/Reader/Memory.antt =====
-- `StringLineReader`: the characters from `position_` on, and the line number.
use dbccpp_tiny.Common.{
  ℕ, suc, ◌==◌, false, ◌||◌, if◌then◌else◌, [], ◌∷◌, ◌++◌, All, Option, none, some, ◌⊎◌, inl, inr,
  ◌≡◌, refl, ap, arith,
}
use dbccpp_tiny.Objects.{Text}

pub record StringReader : Type 0 where
  pub rest : Text
  pub line_number : ℕ

-- The characters behind a carriage return: a line feed that follows belongs to it.
unfoldable pub behind_return : Text → Text
behind_return [] = []
behind_return (c ∷ cs) = if c == 10 then cs else c ∷ cs

-- The line and the characters left.
unfoldable pub split_line : Text → Text × Text
unfolding behind_return
split_line [] = ([], [])
split_line (c ∷ cs) =
    let (line, rest) = split_line cs in
    if c == 10 then ([], cs) else if c == 13 then ([], behind_return cs) else (c ∷ line, rest)

-- `readLine`: the line, if it returns true. What is left of the input is not empty there, so the
-- last line is returned too unless it is empty.
unfoldable pub read_string_line : StringReader → Option Text × StringReader
unfolding split_line
read_string_line s = elim s.rest [
  | [] ↦ (none, s)
  | c ∷ cs ↦
      let (line, rest) = split_line (c ∷ cs) in
      (some line, record { rest = rest; line_number = suc s.line_number })
]

-- A line holds neither a line feed nor a carriage return.
abbrev pub Plain : Text → Type 0
Plain = All (λ c. (c == 10 || c == 13) ≡ false)

split_line-ended :
    (line ending rest : Text)
    → Plain line
    → (ending ≡ 10 ∷ []) ⊎ (ending ≡ 13 ∷ 10 ∷ [])
    → split_line (line ++ (ending ++ rest)) ≡ (line, rest)
unfolding split_line behind_return
split_line-ended [] ending rest p (inl e) = rw e refl
split_line-ended [] ending rest p (inr e) = rw e refl
split_line-ended (c ∷ cs) ending rest (p, ps) e =
    let no_feed : (c == 10) ≡ false = ground (arith, p) in
    let no_return : (c == 13) ≡ false = ground (arith, p) in
    rw (no_feed, no_return, split_line-ended cs ending rest ps e) refl

after_line : ℕ → Text × Text → Option Text × StringReader
after_line count p = (some p.0, record { rest = p.1; line_number = suc count })

-- `StringLineReader` gives a line that ends with a line feed, or with a carriage return and a line
-- feed, without its end, goes on behind it, and counts it.
pub read_string_line-ended :
    (line ending rest : Text) (count : ℕ)
    → Plain line
    → (ending ≡ 10 ∷ []) ⊎ (ending ≡ 13 ∷ 10 ∷ [])
    → read_string_line (record { rest = line ++ (ending ++ rest); line_number = count })
      ≡ (some line, record { rest = rest; line_number = suc count })
unfolding read_string_line after_line
read_string_line-ended [] ending rest count p e = elim e [
  | inl f ↦ rw f (ap (after_line count) (split_line-ended [] (10 ∷ []) rest p (inl refl)))
  | inr f ↦ rw f (ap (after_line count) (split_line-ended [] (13 ∷ 10 ∷ []) rest p (inr refl)))
]
read_string_line-ended (c ∷ cs) ending rest count p e =
    ap (after_line count) (split_line-ended (c ∷ cs) ending rest p e)
