-- ===== src/Reader/File.antt =====
-- `FileLineReader` on an open file, which is the bytes behind the position in it.
use dbccpp_tiny.Common.{
  ℕ, zero, suc, ◌==◌, Bool, true, false, if◌then◌else◌, [], ◌∷◌, ◌++◌, length, Option, none, some,
  ◌>>=◌,
}
use dbccpp_tiny.Objects.{Text}

-- The characters up to the line feed, `n` at most, and those left.
unfoldable pub take_line : ℕ → Text → Text × Text
take_line zero cs = ([], cs)
take_line (suc n) [] = ([], [])
take_line (suc n) (c ∷ cs) =
    let (line, rest) = take_line n cs in if c == 10 then (c ∷ [], cs) else (c ∷ line, rest)

-- `std::fgets` into a buffer of 1024 characters.
unfoldable pub fgets : Text → Option (Text × Text)
unfolding take_line
fgets [] = none
fgets (c ∷ cs) = some (take_line 1023 (c ∷ cs))

-- The buffer as a C string: up to the first NUL.
unfoldable pub c_string : Text → Text
c_string [] = []
c_string (c ∷ cs) = if c == 0 then [] else c ∷ c_string cs

-- Does the buffer end with a line feed?
unfoldable pub ends_line : Text → Bool
ends_line [] = false
ends_line (c ∷ []) = c == 10
ends_line (c ∷ d ∷ cs) = ends_line (d ∷ cs)

-- The buffer without the line feed, and without a carriage return before it.
unfoldable pub without_ending : Text → Text
without_ending [] = []
without_ending (c ∷ []) = []
without_ending (c ∷ d ∷ []) = if c == 13 then [] else c ∷ []
without_ending (c ∷ d ∷ e ∷ cs) = c ∷ without_ending (d ∷ e ∷ cs)

-- A call of `readLine`: the line if it returns true, and the bytes left.
pub record Call : Type 0 where
  pub line : Option Text
  pub rest : Text

-- What `readLine` returns behind the last chunk.
unfoldable pub at_end : Text → Call
at_end [] = record { line = none; rest = [] }
at_end (c ∷ cs) = record { line = some (c ∷ cs); rest = [] }

-- The loop over the chunks of a line.
unfoldable pub read_chunks : ℕ → Text → Text → Option Call
unfolding fgets c_string ends_line without_ending at_end
read_chunks zero line bytes = none
read_chunks (suc fuel) line bytes = elim (fgets bytes) [
  | none ↦ some (at_end line)
  | some (chunk, rest) ↦ elim (ends_line (c_string chunk)) [
    | true ↦ some (record { line = some (line ++ without_ending (c_string chunk)); rest = rest })
    | false ↦ read_chunks fuel (line ++ c_string chunk) rest
  ]
]

unfoldable pub read_line : Text → Option Call
unfolding read_chunks
read_line bytes = read_chunks (suc (length bytes)) [] bytes

-- The loop over the lines of a file: `content += line + "\n"`.
unfoldable pub read_lines : ℕ → Text → Text → Option Text
unfolding read_line
read_lines zero content bytes = none
read_lines (suc fuel) content bytes = read_line bytes >>= λ call. elim call.line [
  | none ↦ some content
  | some line ↦ read_lines fuel (content ++ (line ++ (10 ∷ []))) call.rest
]

unfoldable pub read_content : Text → Option Text
unfolding read_lines
read_content bytes = read_lines (suc (length bytes)) [] bytes
