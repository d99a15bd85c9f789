-- ===== src/Reader/Lines.antt =====
-- What `FileLineReader` makes of lines that fit its buffer.
use mathlib.Core.List.{append_assoc, append-nil}
use dbccpp_tiny.Common.{
  ℕ, zero, suc, ◌<◌, ◌==◌, true, false, ◌||◌, if◌then◌else◌, List, [], ◌∷◌, ◌++◌, length,
  length-append, All, map, some, ◌≡◌, refl, ap, sym, ◌∙◌, arith,
}
use dbccpp_tiny.Objects.{Text}
use dbccpp_tiny.Reader.File.{
  take_line, fgets, c_string, ends_line, without_ending, at_end, read_chunks, read_line, read_lines,
  read_content,
}

-- A line without a line feed or a NUL, that fits the buffer with its line feed.
pub record IsLine (line : Text) : Type 0 where
  pub printable : All (λ c. (c == 10 || c == 0) ≡ false) line
  pub fits : length line < 1023

-- Lines, each with its line feed, and what follows the last line feed.
unfoldable pub joined : List Text → Text → Text
joined [] tail = tail
joined (line ∷ lines) tail = line ++ (10 ∷ joined lines tail)

-- A line without the carriage return at its end.
unfoldable pub drop_return : Text → Text
drop_return [] = []
drop_return (c ∷ []) = if c == 13 then [] else c ∷ []
drop_return (c ∷ d ∷ cs) = c ∷ drop_return (d ∷ cs)

-- The last line with a line feed.
unfoldable pub closed : Text → Text
closed [] = []
closed (c ∷ cs) = (c ∷ cs) ++ (10 ∷ [])

abbrev Printable : Text → Type 0
Printable = All (λ c. (c == 10 || c == 0) ≡ false)

take_line-joined :
    (n : ℕ) (line rest : Text)
    → Printable line
    → length line < n
    → take_line n (line ++ (10 ∷ rest)) ≡ (line ++ (10 ∷ []), rest)
unfolding take_line
take_line-joined zero line rest p h = absurd (omega arith)
take_line-joined (suc n) [] rest p h = refl
take_line-joined (suc n) (c ∷ cs) rest (p, ps) h =
    let no_feed : (c == 10) ≡ false = ground (arith, p) in
    rw (no_feed, take_line-joined n cs rest ps (omega arith)) refl

take_line-last :
    (n : ℕ) (line : Text) → Printable line → length line < n → take_line n line ≡ (line, [])
unfolding take_line
take_line-last zero line p h = absurd (omega arith)
take_line-last (suc n) [] p h = refl
take_line-last (suc n) (c ∷ cs) (p, ps) h =
    let no_feed : (c == 10) ≡ false = ground (arith, p) in
    rw (no_feed, take_line-last n cs ps (omega arith)) refl

c_string-line :
    (line rest : Text) → Printable line → c_string (line ++ rest) ≡ line ++ c_string rest
unfolding c_string
c_string-line [] rest p = refl
c_string-line (c ∷ cs) rest (p, ps) =
    let no_nul : (c == 0) ≡ false = ground (arith, p) in rw (no_nul, c_string-line cs rest ps) refl

ends_line-joined : (line : Text) → ends_line (line ++ (10 ∷ [])) ≡ true
unfolding ends_line
ends_line-joined [] = refl
ends_line-joined (c ∷ []) = refl
ends_line-joined (c ∷ d ∷ cs) = ends_line-joined (d ∷ cs)

ends_line-last : (line : Text) → Printable line → ends_line line ≡ false
unfolding ends_line
ends_line-last [] p = refl
ends_line-last (c ∷ []) (p, ps) = ground (arith, p)
ends_line-last (c ∷ d ∷ cs) (p, ps) = ends_line-last (d ∷ cs) ps

without_ending-joined : (line : Text) → without_ending (line ++ (10 ∷ [])) ≡ drop_return line
unfolding without_ending drop_return
without_ending-joined [] = refl
without_ending-joined (c ∷ []) = refl
without_ending-joined (c ∷ d ∷ []) = refl
without_ending-joined (c ∷ d ∷ e ∷ cs) = ap (c ∷◌) (without_ending-joined (d ∷ e ∷ cs))

fgets-joined :
    (line rest : Text) → IsLine line → fgets (line ++ (10 ∷ rest)) ≡ some (line ++ (10 ∷ []), rest)
unfolding fgets
fgets-joined [] rest l = ap some (take_line-joined 1023 [] rest l.printable l.fits)
fgets-joined (c ∷ cs) rest l = ap some (take_line-joined 1023 (c ∷ cs) rest l.printable l.fits)

-- A round of the loop over the chunks.
pub read_chunks-done :
    (fuel : ℕ) (line bytes chunk rest : Text)
    → fgets bytes ≡ some (chunk, rest)
    → ends_line (c_string chunk) ≡ true
    → read_chunks (suc fuel) line bytes
      ≡ some (record { line = some (line ++ without_ending (c_string chunk)); rest = rest })
unfolding read_chunks
read_chunks-done fuel line bytes chunk rest e h = rw (e, h, read_chunks) refl

pub read_chunks-more :
    (fuel : ℕ) (line bytes chunk rest : Text)
    → fgets bytes ≡ some (chunk, rest)
    → ends_line (c_string chunk) ≡ false
    → read_chunks (suc fuel) line bytes ≡ read_chunks fuel (line ++ c_string chunk) rest
unfolding read_chunks
read_chunks-more fuel line bytes chunk rest e h = rw (e, h, read_chunks) refl

-- A line that ends with a line feed.
pub read_line-joined :
    (line rest : Text)
    → IsLine line
    → read_line (line ++ (10 ∷ rest))
      ≡ some (record { line = some (drop_return line); rest = rest })
unfolding read_line c_string
read_line-joined line rest l =
    let whole = c_string-line line (10 ∷ []) l.printable in
    read_chunks-done (length (line ++ (10 ∷ rest))) [] (line ++ (10 ∷ rest)) _ rest
      (fgets-joined line rest l) (ap ends_line whole ∙ ends_line-joined line)
    ∙ ap (λ x. some (record { line = some x; rest = rest }))
        (ap without_ending whole ∙ without_ending-joined line)

-- The last line, without a line feed.
pub read_line-last :
    (c : ℕ) (cs : Text)
    → IsLine (c ∷ cs)
    → read_line (c ∷ cs) ≡ some (record { line = some (c ∷ cs); rest = [] })
unfolding read_line read_chunks fgets at_end c_string
read_line-last c cs l =
    let whole : c_string (c ∷ cs) ≡ c ∷ cs =
      ap c_string (sym (append-nil (c ∷ cs)))
      ∙ c_string-line (c ∷ cs) [] l.printable
      ∙ append-nil (c ∷ cs) in
    read_chunks-more (length (c ∷ cs)) [] (c ∷ cs) (c ∷ cs) []
      (ap some (take_line-last 1023 (c ∷ cs) l.printable l.fits))
      (ap ends_line whole ∙ ends_line-last (c ∷ cs) l.printable)
    ∙ ap (λ x. some (at_end x)) whole

read_lines-joined :
    (lines : List Text) (tail content : Text) (fuel : ℕ)
    → All IsLine lines
    → IsLine tail
    → length (joined lines tail) < fuel
    → read_lines fuel content (joined lines tail)
      ≡ some (content ++ joined (map drop_return lines) (closed tail))
unfolding read_lines joined closed
read_lines-joined lines tail content zero ls t h = absurd (omega arith)
read_lines-joined [] [] content (suc fuel) ls t h = ap some (sym (append-nil content))
read_lines-joined [] (c ∷ cs) content (suc zero) ls t h = absurd (omega arith)
read_lines-joined [] (c ∷ cs) content (suc (suc fuel)) ls t h = rw (read_line-last c cs t) refl
read_lines-joined (line ∷ lines) tail content (suc fuel) (l, ls) t h =
    let shorter = length-append line (10 ∷ joined lines tail) in
    rw (read_line-joined line (joined lines tail) l) (
      read_lines-joined lines tail (content ++ (drop_return line ++ (10 ∷ []))) fuel ls t
        (omega (arith, h, shorter))
      ∙ ap some (
          append_assoc content (drop_return line ++ (10 ∷ [])) _
          ∙ ap (content ++◌) (
              append_assoc (drop_return line) (10 ∷ [])
                (joined (map drop_return lines) (closed tail)))))

-- The content of a file is read to the end: when each line is printable and fits the buffer, the
-- content is the lines without the carriage returns at their ends, each with a line feed, and
-- the last line as it is, with a line feed.
pub read_content-joined :
    (lines : List Text) (tail : Text)
    → All IsLine lines
    → IsLine tail
    → read_content (joined lines tail) ≡ some (joined (map drop_return lines) (closed tail))
unfolding read_content
read_content-joined lines tail ls t =
    read_lines-joined lines tail [] (suc (length (joined lines tail))) ls t (omega arith)
