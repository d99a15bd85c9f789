-- ===== src/Stream/Files.antt =====
-- `parseFile` and `parseString` on the same text.
use mathlib.Core.List.{append_assoc}
use dbccpp_tiny.Common.{
  ℕ, suc, ◌+◌, ◌<◌, ◌==◌, ◌||◌, Bool, true, false, List, [], ◌∷◌, ◌++◌, length, length-append, All,
  Option, none, some, inl, inr, ◌≡◌, refl, ap, sym, ◌∙◌, arith,
}
use dbccpp_tiny.Objects.{Text}
use dbccpp_tiny.Parser.Numbers.{DoubleReader}
use dbccpp_tiny.Reader.File.{read_line}
use dbccpp_tiny.Reader.Lines.{IsLine, drop_return, read_line-joined, read_line-last}
use dbccpp_tiny.Reader.Memory.{
  StringReader, Plain, split_line, read_string_line, read_string_line-ended,
}
use dbccpp_tiny.Reader.Adapters.{
  FileReader, file_adapter, string_adapter, string_reader, after_call, read_file_line, open_file,
  open_adapter,
}
use dbccpp_tiny.Stream.State.{Current, Storage}
use dbccpp_tiny.Stream.Whole.{initial, parse_file, parse_string}
use dbccpp_tiny.Stream.Lines.{Gives, ended, given, steps, parse-steps}

-- A line without a NUL and without the end of a line, that fits the buffer with its end.
pub record IsPlain (line : Text) : Type 0 where
  pub printable : All (λ c. (c == 10 || c == 0) ≡ false) line
  pub plain : Plain line
  pub fits : length line + 1 < 1023

-- The end of a line, with a carriage return or without.
abbrev pub ending_of : Bool → Text
ending_of true = 13 ∷ 10 ∷ []
ending_of false = 10 ∷ []

-- Lines with their ends, and what follows.
unfoldable pub text_of : List (Text × Bool) → Text → Text
text_of [] tail = tail
text_of ((line, crlf) ∷ ls) tail = line ++ (ending_of crlf ++ text_of ls tail)

-- The lines with their numbers, behind line `n`.
unfoldable pub numbered : ℕ → List (Text × Bool) → Text → List (ℕ × Text)
numbered n [] [] = []
numbered n [] (c ∷ cs) = (suc n, c ∷ cs) ∷ []
numbered n ((line, crlf) ∷ ls) tail = (suc n, line) ∷ numbered (suc n) ls tail

unfoldable pub last_number : ℕ → List (Text × Bool) → Text → ℕ
last_number n [] [] = n
last_number n [] (c ∷ cs) = suc n
last_number n ((line, crlf) ∷ ls) tail = last_number (suc n) ls tail

drop_return-plain : (line : Text) → Plain line → drop_return line ≡ line
unfolding drop_return
drop_return-plain [] p = refl
drop_return-plain (c ∷ []) (p, ps) =
    let no_return : (c == 13) ≡ false = ground (arith, p) in rw no_return refl
drop_return-plain (c ∷ d ∷ cs) (p, ps) = ap (c ∷◌) (drop_return-plain (d ∷ cs) ps)

drop_return-return : (line : Text) → drop_return (line ++ (13 ∷ [])) ≡ line
unfolding drop_return
drop_return-return [] = refl
drop_return-return (c ∷ []) = refl
drop_return-return (c ∷ d ∷ cs) = ap (c ∷◌) (drop_return-return (d ∷ cs))

printable-return :
    (line : Text)
    → All (λ c. (c == 10 || c == 0) ≡ false) line
    → All (λ c. (c == 10 || c == 0) ≡ false) (line ++ (13 ∷ []))
printable-return [] p = (refl, tt)
printable-return (c ∷ cs) (p, ps) = (p, printable-return cs ps)

-- `FileLineReader` gives a line without its end.
read_line-ended :
    (line rest : Text) (crlf : Bool)
    → IsPlain line
    → read_line (line ++ (ending_of crlf ++ rest)) ≡ some (record { line = some line; rest = rest })
read_line-ended line rest false h =
    let fits : IsLine line = record { printable = h.printable; fits = omega (arith, h.fits) } in
    read_line-joined line rest fits
    ∙ ap (λ t. some (record { line = some t; rest = rest })) (drop_return-plain line h.plain)
read_line-ended line rest true h =
    let fits : IsLine (line ++ (13 ∷ [])) = record {
      printable = printable-return line h.printable;
      fits = omega (arith, h.fits, length-append line (13 ∷ []));
    } in
    ap read_line (sym (append_assoc line (13 ∷ []) (10 ∷ rest)))
    ∙ read_line-joined (line ++ (13 ∷ [])) rest fits
    ∙ ap (λ t. some (record { line = some t; rest = rest })) (drop_return-return line)

-- `StringLineReader` gives a line without its end.
read_string_line-plain :
    (line rest : Text) (crlf : Bool) (n : ℕ)
    → Plain line
    → read_string_line (record { rest = line ++ (ending_of crlf ++ rest); line_number = n })
      ≡ (some line, record { rest = rest; line_number = suc n })
read_string_line-plain line rest true n p =
    read_string_line-ended line (ending_of true) rest n p (inr refl)
read_string_line-plain line rest false n p =
    read_string_line-ended line (ending_of false) rest n p (inl refl)

split_line-plain : (line : Text) → Plain line → split_line line ≡ (line, [])
unfolding split_line
split_line-plain [] p = refl
split_line-plain (c ∷ cs) (p, ps) =
    let no_feed : (c == 10) ≡ false = ground (arith, p) in
    let no_return : (c == 13) ≡ false = ground (arith, p) in
    rw (no_feed, no_return, split_line-plain cs ps) refl

string-Gives :
    (ls : List (Text × Bool)) (tail : Text) (n : ℕ)
    → All (λ l. IsPlain l.0) ls
    → IsPlain tail
    → Gives string_adapter
        (record { rest = text_of ls tail; line_number = n })
        (numbered n ls tail)
        (last_number n ls tail)
unfolding text_of numbered last_number read_string_line
string-Gives [] [] n hs h = ended _ (record { rest = []; line_number = n }) refl
string-Gives [] (c ∷ cs) n hs h =
    let behind : StringReader = record { rest = []; line_number = suc n } in
    given _ behind (c ∷ cs) [] (suc n)
      (ap (λ p. (some p.0, record { rest = p.1; line_number = suc n }))
        (split_line-plain (c ∷ cs) h.plain))
      (ended behind behind refl)
string-Gives ((line, crlf) ∷ ls) tail n (l, hs) h =
    given _ (record { rest = text_of ls tail; line_number = suc n }) line (numbered (suc n) ls tail)
      (last_number (suc n) ls tail) (read_string_line-plain line (text_of ls tail) crlf n l.plain)
      (string-Gives ls tail (suc n) hs h)

-- An open file, behind line `n`.
abbrev at_bytes : Text → ℕ → FileReader
at_bytes bytes n = record { file = some bytes; line_number = n }

read_file_line-some :
    (bytes line rest : Text) (n : ℕ)
    → read_line bytes ≡ some (record { line = some line; rest = rest })
    → read_file_line (at_bytes bytes n) ≡ (some line, at_bytes rest (suc n))
unfolding read_file_line
read_file_line-some bytes line rest n e = ap (λ o. after_call o (at_bytes bytes n)) e

read_file_line-end : (n : ℕ) → read_file_line (at_bytes [] n) ≡ (none, at_bytes [] n)
unfolding read_file_line
read_file_line-end n = refl

file-Gives :
    (ls : List (Text × Bool)) (tail : Text) (n : ℕ)
    → All (λ l. IsPlain l.0) ls
    → IsPlain tail
    → Gives file_adapter (at_bytes (text_of ls tail) n) (numbered n ls tail) (last_number n ls tail)
unfolding text_of numbered last_number
file-Gives [] [] n hs h = ended _ (at_bytes [] n) (read_file_line-end n)
file-Gives [] (c ∷ cs) n hs h =
    let fits : IsLine (c ∷ cs) = record { printable = h.printable; fits = omega (arith, h.fits) } in
    given _ (at_bytes [] (suc n)) (c ∷ cs) [] (suc n)
      (read_file_line-some (c ∷ cs) (c ∷ cs) [] n (read_line-last c cs fits))
      (ended _ (at_bytes [] (suc n)) (read_file_line-end (suc n)))
file-Gives ((line, crlf) ∷ ls) tail n (l, hs) h =
    given _ (at_bytes (text_of ls tail) (suc n)) line (numbered (suc n) ls tail)
      (last_number (suc n) ls tail)
      (read_file_line-some _ line (text_of ls tail) n
        (read_line-ended line (text_of ls tail) crlf l))
      (file-Gives ls tail (suc n) hs h)

module _ {Double : Type 0} (reader : DoubleReader Double) (storage : Storage Double) where
  -- A text is parsed as the steps on its lines, which are numbered from 1 on, without their ends,
  -- if the lines hold no NUL and no carriage return, end with a line feed or with a carriage
  -- return and a line feed, and fit the buffer of the file reader.
  pub parse_string-numbered :
      (ls : List (Text × Bool)) (tail : Text) (current : Current)
      → All (λ l. IsPlain l.0) ls
      → IsPlain tail
      → parse_string reader storage (text_of ls tail) current
        ≡ steps reader storage (numbered 0 ls tail) (last_number 0 ls tail) (initial current)
  unfolding parse_string
  parse_string-numbered ls tail current hs h =
      parse-steps reader storage string_adapter current (string_reader (text_of ls tail))
        (numbered 0 ls tail) (last_number 0 ls tail) (string-Gives ls tail 0 hs h)

  -- A file is parsed by lines with the same result as its text, if its lines hold no NUL and no
  -- carriage return, end with a line feed or with a carriage return and a line feed, and fit the
  -- buffer of the file reader.
  pub parse_file-eq-parse_string :
      (files : Text → Option Text) (filename : Text) (ls : List (Text × Bool)) (tail : Text)
      (current : Current)
      → files filename ≡ some (text_of ls tail)
      → All (λ l. IsPlain l.0) ls
      → IsPlain tail
      → parse_file reader storage files filename current
        ≡ parse_string reader storage (text_of ls tail) current
  unfolding parse_file open_adapter open_file
  parse_file-eq-parse_string files filename ls tail current e hs h = rw e (
      parse-steps reader storage file_adapter current (at_bytes (text_of ls tail) 0)
        (numbered 0 ls tail) (last_number 0 ls tail) (file-Gives ls tail 0 hs h)
      ∙ sym (parse_string-numbered ls tail current hs h))
