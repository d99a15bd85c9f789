-- ===== src/Reader/Adapters.antt =====
-- `ILineReader` as an interface, and the two adapters. `FileLineReader` with its file, which is null
-- or the bytes behind the position in it, and its line number.
use dbccpp_tiny.Common.{
  ℕ, suc, ◌<◌, ◌≤◌, Bool, true, false, [], ◌∷◌, Option, none, some, length, ◌≡◌, ◌⊎◌, inl, inr,
  refl, ap, ◌∙◌, sym, arith, Option-cases, subst,
}
use dbccpp_tiny.Objects.{Text}
use dbccpp_tiny.Reader.File.{Call, read_line}
use dbccpp_tiny.Reader.Memory.{StringReader, split_line, behind_return, read_string_line}
use dbccpp_tiny.Reader.Total.{read_line-some}

-- A line reader. `left` bounds the lines that are left.
pub record LineReader : Type 1 where
  pub State : Type 0
  pub read_line : State → Option Text × State
  pub line_number : State → ℕ
  pub left : State → ℕ
  pub shorter :
      (s : State) (line : Text) (next : State)
      → read_line s ≡ (some line, next)
      → left next < left s

pub record FileReader : Type 0 where
  pub file : Option Text
  pub line_number : ℕ

-- The constructor.
abbrev pub closed_reader : FileReader
closed_reader = record { file = none; line_number = 0 }

unfoldable pub close : FileReader → FileReader
close r = record r { file = none }

abbrev pub is_open : FileReader → Bool
is_open r = elim r.file [ none ↦ false | some bytes ↦ true ]

-- `files` gives the bytes of a file that can be opened.
unfoldable pub open_file : (Text → Option Text) → Text → FileReader → Bool × FileReader
unfolding close
open_file files filename r =
    let opened : FileReader = record (close r) { file = files filename; line_number = 0 } in
    (is_open opened, opened)

-- A line counts, the end of the file does not. `none` is a loop without fuel, which does not occur
-- (Reader.Total).
abbrev pub after_call : Option Call → FileReader → Option Text × FileReader
after_call none r = (none, r)
after_call (some call) r = elim call.line [
  | none ↦ (none, record r { file = some call.rest })
  | some line ↦ (some line, record { file = some call.rest; line_number = suc r.line_number })
]

unfoldable pub read_file_line : FileReader → Option Text × FileReader
unfolding read_line
read_file_line r = elim r.file [ none ↦ (none, r) | some bytes ↦ after_call (read_line bytes) r ]

abbrev pub bytes_left : Option Text → ℕ
bytes_left none = 0
bytes_left (some bytes) = length bytes

-- What a call leaves, when it gives a line.
after_call-left :
    (r : FileReader) (bytes line : Text) (call : Call) (next : FileReader)
    → (call.line ≡ none) ⊎ (length call.rest < length bytes)
    → after_call (some call) r ≡ (some line, next)
    → bytes_left next.file < length bytes
after_call-left r bytes line call next shorter e = elim (Option-cases call.line) [
  | inl f ↦ absurd (cc (ap (λ p. p.0) (sym (after_none f) ∙ e)))
  | inr (l, f) ↦ elim shorter [
    | inl g ↦ absurd (cc (f, g))
    | inr lt ↦
        let same : some call.rest ≡ next.file = ap (λ p. p.1.file) (sym (after_some l f) ∙ e) in
        subst (λ o. bytes_left o < length bytes) same lt
  ]
]
  where
    after_none :
        call.line ≡ none → after_call (some call) r ≡ (none, record r { file = some call.rest })
    after_none f = rw f refl

    after_some :
        (l : Text)
        → call.line ≡ some l
        → after_call (some call) r
          ≡ (some l, record { file = some call.rest; line_number = suc r.line_number })
    after_some l f = rw f refl

pub file-shorter :
    (r : FileReader) (line : Text) (next : FileReader)
    → read_file_line r ≡ (some line, next)
    → bytes_left next.file < bytes_left r.file
unfolding read_file_line
file-shorter r line next = by r.file r.line_number
  where
    by :
        (file : Option Text) (n : ℕ)
        → read_file_line (record { file = file; line_number = n }) ≡ (some line, next)
        → bytes_left next.file < bytes_left file
    by none n e = absurd (cc (ap (λ p. p.0) e))
    by (some bytes) n e =
        let (call, read, shorter) = read_line-some bytes in
        let here : FileReader = record { file = some bytes; line_number = n } in
        after_call-left here bytes line call next shorter
          (sym (ap (λ o. after_call o here) read) ∙ e)

behind_return-le : (cs : Text) → length (behind_return cs) ≤ length cs
unfolding behind_return
behind_return-le [] = omega arith
behind_return-le (c ∷ cs) = ground arith

split_line-le : (cs : Text) → length (split_line cs).1 ≤ length cs
unfolding split_line
split_line-le [] = omega arith
split_line-le (c ∷ cs) = ground (arith, split_line-le cs, behind_return-le cs)

split_line-lt : (c : ℕ) (cs : Text) → length (split_line (c ∷ cs)).1 < length (c ∷ cs)
unfolding split_line
split_line-lt c cs = ground (arith, split_line-le cs, behind_return-le cs)

pub string-shorter :
    (r : StringReader) (line : Text) (next : StringReader)
    → read_string_line r ≡ (some line, next)
    → length next.rest < length r.rest
unfolding read_string_line
string-shorter r line next = by r.rest r.line_number
  where
    by :
        (rest : Text) (n : ℕ)
        → read_string_line (record { rest = rest; line_number = n }) ≡ (some line, next)
        → length next.rest < length rest
    by [] n e = absurd (cc (ap (λ p. p.0) e))
    by (c ∷ cs) n e =
        subst (λ t. length t < length (c ∷ cs)) (ap (λ p. p.1.rest) e) (split_line-lt c cs)

-- `FileLineReaderAdapter`
abbrev pub file_adapter : LineReader
file_adapter = record {
  State = FileReader;
  read_line = read_file_line;
  line_number = λ r. r.line_number;
  left = λ r. bytes_left r.file;
  shorter = file-shorter;
}

-- `StringLineReaderAdapter`
abbrev pub string_adapter : LineReader
string_adapter = record {
  State = StringReader;
  read_line = read_string_line;
  line_number = λ r. r.line_number;
  left = λ r. length r.rest;
  shorter = string-shorter;
}

-- The constructors of the adapters.
unfoldable pub open_adapter : (Text → Option Text) → Text → FileReader
unfolding open_file
open_adapter files filename = (open_file files filename closed_reader).1

abbrev pub string_reader : Text → StringReader
string_reader input = record { rest = input; line_number = 0 }
