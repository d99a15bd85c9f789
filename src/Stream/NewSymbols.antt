-- ===== src/Stream/NewSymbols.antt =====
-- The section NS_ of a text and of a file, from its text to the symbols: `parseFile` and
-- `parseString` of src/dbc_stream_parser.h.
use mathlib.Core.List.{append-nil}
use dbccpp_tiny.Common.{
  ℕ, suc, ◌+◌, ◌<◌, ◌==◌, ◌||◌, Bool, true, false, List, [], ◌∷◌, ◌++◌, map, length, All, Option,
  none, some, codes, text_eq, ◌≡◌, refl, ap, sym, ◌∙◌, arith,
}
use dbccpp_tiny.Objects.{Text}
use dbccpp_tiny.Lexer.Cursor.{is_digit, is_alpha, is_word}
use dbccpp_tiny.Lexer.RoundTrip.Words.{IsName}
use dbccpp_tiny.Parser.Numbers.{DoubleReader}
use dbccpp_tiny.Parser.Whole.{with_head}
use dbccpp_tiny.Stream.Text.{is_empty, is_blank, trim, trim_start, trim_end}
use dbccpp_tiny.Stream.State.{Current, State, done, bind, Storage}
use dbccpp_tiny.Stream.Whole.{
  Progress, initial, is_ns_header, step, finish, parse_file, parse_string,
}
use dbccpp_tiny.Stream.Lines.{steps}
use dbccpp_tiny.Stream.Files.{
  IsPlain, text_of, numbered, last_number, parse_string-numbered, parse_file-eq-parse_string,
}
use dbccpp_tiny.Stream.Symbols.{IsSymbol, steps-symbols}

-- A line with a tab and the name for each symbol.
abbrev indented : List Text → Text
indented [] = []
indented (name ∷ names) = 9 ∷ (name ++ (10 ∷ indented names))

-- The section NS_ with these symbols.
unfoldable pub symbols_text : List Text → Text
symbols_text names = codes "NS_ :" ++ (10 ∷ indented names)

-- A name that fits the buffer of the file reader, with a tab and the end of the line.
abbrev pub IsSymbolName : Text → Type 0
IsSymbolName name = IsName name × (length name + 2 < 1023)

abbrev Words : Text → Type 0
Words = All (λ c. is_word c ≡ true)

name-Words : (name : Text) → IsName name → Words name
unfolding is_alpha is_word is_digit
name-Words [] h = tt
name-Words (c ∷ cs) (h, hs) = (ground (arith, h), hs)

word-no_blank : (c : ℕ) → is_word c ≡ true → is_blank c ≡ false
unfolding is_alpha is_word is_digit
word-no_blank c h = ground (arith, h)

trim_end-Words : (cs : Text) → Words cs → trim_end cs ≡ cs
unfolding trim_end
trim_end-Words [] h = refl
trim_end-Words (c ∷ cs) (h, hs) = rw (word-no_blank c h, trim_end-Words cs hs) refl

trim-symbol : (name : Text) → IsName name → trim (9 ∷ name) ≡ name
unfolding trim trim_start
trim-symbol [] h = absurd h
trim-symbol (c ∷ cs) h =
    let hs = name-Words (c ∷ cs) h in
    let start : trim_start (9 ∷ c ∷ cs) ≡ c ∷ cs = rw (word-no_blank c hs.0) refl in
    ap trim_end start ∙ trim_end-Words (c ∷ cs) hs

-- A text of such characters is no text with another one.
other-text :
    (cs front back : Text) (d : ℕ)
    → Words cs
    → is_word d ≡ false
    → text_eq cs (front ++ (d ∷ back)) ≡ false
unfolding is_alpha is_word is_digit
other-text [] [] back d h no_word = refl
other-text [] (f ∷ front) back d h no_word = refl
other-text (c ∷ cs) [] back d (h, hs) no_word = ground (arith, h, no_word)
other-text (c ∷ cs) (f ∷ front) back d (h, hs) no_word =
    ground (arith, other-text cs front back d hs no_word)

no_header : (name : Text) → Words name → is_ns_header name ≡ false
unfolding is_alpha is_word is_digit
no_header name h =
    let blank = other-text name (codes "NS_") (codes ":") b' ' h refl in
    let colon = other-text name (codes "NS_") [] b':' h refl in rw (blank, colon) refl

line-IsSymbol : (name : Text) → IsName name → IsSymbol (9 ∷ name)
unfolding is_alpha is_word is_digit
line-IsSymbol [] h = absurd h
line-IsSymbol (c ∷ cs) h =
    let same = trim-symbol (c ∷ cs) h in
    record {
      filled = ap is_empty same;
      no_comment = rw same (ground (arith, h.0));
      no_header = ap is_ns_header same ∙ no_header (c ∷ cs) (name-Words (c ∷ cs) h);
      indented = refl;
    }

printable-Words : (cs : Text) → Words cs → All (λ c. (c == 10 || c == 0) ≡ false) cs
unfolding is_alpha is_word is_digit
printable-Words [] h = tt
printable-Words (c ∷ cs) (h, hs) = (ground (arith, h), printable-Words cs hs)

plain-Words : (cs : Text) → Words cs → All (λ c. (c == 10 || c == 13) ≡ false) cs
unfolding is_alpha is_word is_digit
plain-Words [] h = tt
plain-Words (c ∷ cs) (h, hs) = (ground (arith, h), plain-Words cs hs)

symbol-IsPlain : (name : Text) → IsSymbolName name → IsPlain (9 ∷ name)
symbol-IsPlain name (h, fits) =
    let hs = name-Words name h in
    record {
      printable = (refl, printable-Words name hs);
      plain = (refl, plain-Words name hs);
      fits = omega (arith, fits);
    }

-- The lines of the section, each with a line feed.
abbrev lines_of : List Text → List (Text × Bool)
lines_of = map (λ name. (9 ∷ name, false))

lines-IsPlain :
    (names : List Text) → All IsSymbolName names → All (λ l. IsPlain l.0) (lines_of names)
lines-IsPlain [] h = tt
lines-IsPlain (name ∷ names) (h, hs) = (symbol-IsPlain name h, lines-IsPlain names hs)

text_of-indented : (names : List Text) → text_of (lines_of names) [] ≡ indented names
unfolding text_of
text_of-indented [] = refl
text_of-indented (name ∷ names) = ap (λ text. 9 ∷ (name ++ (10 ∷ text))) (text_of-indented names)

abbrev header_line : Text × Bool
header_line = (codes "NS_ :", false)

header-IsPlain : IsPlain (codes "NS_ :")
header-IsPlain = record { printable = search; plain = search; fits = omega arith }

end-IsPlain : IsPlain []
end-IsPlain = record { printable = tt; plain = tt; fits = omega arith }

symbols_text-lines :
    (names : List Text) → symbols_text names ≡ text_of (header_line ∷ lines_of names) []
unfolding symbols_text text_of
symbols_text-lines names = ap (λ text. codes "NS_ :" ++ (10 ∷ text)) (sym (text_of-indented names))

numbered-IsSymbol :
    (n : ℕ) (names : List Text)
    → All IsSymbolName names
    → All (λ l. IsSymbol l.1) (numbered n (lines_of names) [])
unfolding numbered
numbered-IsSymbol n [] h = tt
numbered-IsSymbol n (name ∷ names) (h, hs) =
    (line-IsSymbol name h.0, numbered-IsSymbol (suc n) names hs)

numbered-trim :
    (n : ℕ) (names : List Text)
    → All IsSymbolName names
    → map (λ l. trim l.1) (numbered n (lines_of names) []) ≡ names
unfolding numbered
numbered-trim n [] h = refl
numbered-trim n (name ∷ names) (h, hs) =
    ap (◌∷ map (λ l. trim l.1) (numbered (suc n) (lines_of names) [])) (trim-symbol name h.0)
    ∙ ap (name ∷◌) (numbered-trim (suc n) names hs)

module _ {Double : Type 0} where
  -- The network that holds these symbols alone.
  abbrev pub with_new_symbols : List Text → Current → State Double
  with_new_symbols names current = record {
    network = with_head [] names none [];
    current = current;
  }

module _ {Double : Type 0} (reader : DoubleReader Double) (storage : Storage Double) where
  -- The header of the section opens it.
  step-header :
      (current : Current)
      → step reader storage 1 (codes "NS_ :") (initial current)
        ≡ done (record (initial current) { in_ns_section = true })
  unfolding step
  step-header current = refl

  text-symbols :
      (names : List Text) (current : Current)
      → All IsSymbolName names
      → parse_string reader storage (symbols_text names) current
        ≡ done (with_new_symbols names current)
  unfolding numbered last_number steps finish
  text-symbols names current h =
      let symbols = numbered 1 (lines_of names) [] in
      let last = last_number 1 (lines_of names) [] in
      let inside : Progress Double = record (initial current) { in_ns_section = true } in
      ap (λ text. parse_string reader storage text current) (symbols_text-lines names)
      ∙ parse_string-numbered reader storage (header_line ∷ lines_of names) [] current
          (header-IsPlain, lines-IsPlain names h) end-IsPlain
      ∙ ap (λ r. bind r (steps reader storage symbols last)) (step-header current)
      ∙ ap (λ ls. steps reader storage ls last inside) (sym (append-nil symbols))
      ∙ steps-symbols reader storage symbols [] last inside refl (numbered-IsSymbol 1 names h)
      ∙ ap (λ ns. done (with_new_symbols ns current)) (numbered-trim 1 names h)

  -- A text, and a file with this text, that has the line `NS_ :` and behind it a line with a tab
  -- and the name for each of some symbols, are parsed as a network with exactly these new symbols,
  -- in order, and nothing else. A name has at most 1020 letters, digits and underscores, and does
  -- not start with a digit.
  pub parse-symbols_text :
      (files : Text → Option Text) (filename : Text) (names : List Text) (current : Current)
      → files filename ≡ some (symbols_text names)
      → All IsSymbolName names
      → (parse_string reader storage (symbols_text names) current
          ≡ done (with_new_symbols names current))
        × (parse_file reader storage files filename current ≡ done (with_new_symbols names current))
  parse-symbols_text files filename names current e h =
      let lines = header_line ∷ lines_of names in
      let as_text = text-symbols names current h in
      (
        as_text,
        parse_file-eq-parse_string reader storage files filename lines [] current
              (e ∙ ap some (symbols_text-lines names)) (header-IsPlain, lines-IsPlain names h)
              end-IsPlain
            ∙ ap (λ text. parse_string reader storage text current) (sym (symbols_text-lines names))
            ∙ as_text,
      )
