-- ===== src/Reader/Total.antt =====
-- The loops of `FileLineReader` end: each chunk takes a character of the file at least.
use dbccpp_tiny.Common.{
  ℕ, zero, suc, ◌<◌, ◌≤◌, ◌==◌, Bool-cases, inl, inr, ◌⊎◌, [], ◌∷◌, ◌++◌, length, Option-cases,
  none, some, ◌≡◌, refl, ◌∙◌, arith,
}
use dbccpp_tiny.Objects.{Text}
use dbccpp_tiny.Reader.Lines.{read_chunks-done, read_chunks-more}
use dbccpp_tiny.Reader.File.{
  take_line, fgets, c_string, ends_line, Call, at_end, read_chunks, read_line, read_lines,
  read_content,
}

take_line-le : (n : ℕ) (cs : Text) → length (take_line n cs).1 ≤ length cs
unfolding take_line
take_line-le zero cs = omega arith
take_line-le (suc n) [] = omega arith
take_line-le (suc n) (c ∷ cs) = elim (Bool-cases (c == 10)) [
  | inl e ↦ rw e (omega arith)
  | inr e ↦ rw e (omega (arith, take_line-le n cs))
]

take_line-lt : (n c : ℕ) (cs : Text) → length (take_line (suc n) (c ∷ cs)).1 < length (c ∷ cs)
unfolding take_line
take_line-lt n c cs = elim (Bool-cases (c == 10)) [
  | inl e ↦ rw e (omega arith)
  | inr e ↦ rw e (omega (arith, take_line-le n cs))
]

-- There is nothing to read, or a chunk is taken.
fgets-cases :
    (bytes : Text)
    → (bytes ≡ [])
      ⊎ ((chunk : Text) × (rest : Text) × (fgets bytes ≡ some (chunk, rest))
          × (length rest < length bytes))
unfolding fgets
fgets-cases [] = inl refl
fgets-cases (c ∷ cs) = inr (_, _, refl, take_line-lt 1022 c cs)

at_end-le : (line bytes : Text) → length (at_end line).rest ≤ length bytes
unfolding at_end
at_end-le [] bytes = omega arith
at_end-le (c ∷ cs) bytes = omega arith

-- A round of the loop over the chunks of a line.
read_chunks-round :
    (fuel : ℕ) (line bytes chunk rest : Text)
    → fgets bytes ≡ some (chunk, rest)
    → length rest < length bytes
    → ((more : Text)
        → (call : Call) × (read_chunks fuel more rest ≡ some call)
          × (length call.rest ≤ length rest))
    → (call : Call) × (read_chunks (suc fuel) line bytes ≡ some call)
      × (length call.rest < length bytes)
read_chunks-round fuel line bytes chunk rest e h next =
    elim (Bool-cases (ends_line (c_string chunk))) [
      | inl f ↦ (_, read_chunks-done fuel line bytes chunk rest e f, h)
      | inr f ↦
          let (call, read, le) = next (line ++ c_string chunk) in
          (call, read_chunks-more fuel line bytes chunk rest e f ∙ read, omega (arith, h, le))
    ]

read_chunks-some :
    (fuel : ℕ) (line bytes : Text)
    → length bytes < fuel
    → (call : Call) × (read_chunks fuel line bytes ≡ some call) × (length call.rest ≤ length bytes)
unfolding read_chunks fgets
read_chunks-some zero line bytes h = absurd (omega arith)
read_chunks-some (suc fuel) line bytes h = elim (fgets-cases bytes) [
  | inl e ↦ (at_end line, rw e refl, at_end-le line bytes)
  | inr (chunk, rest, e, shorter) ↦
      let (call, read, lt) =
        read_chunks-round fuel line bytes chunk rest e shorter
          λ more. read_chunks-some fuel more rest (omega arith) in
      (call, read, omega (arith, lt))
]

-- A call returns; when it gives a line, it has taken some of the file.
pub read_line-some :
    (bytes : Text)
    → (call : Call) × (read_line bytes ≡ some call)
      × ((call.line ≡ none) ⊎ (length call.rest < length bytes))
unfolding read_line read_chunks fgets at_end
read_line-some bytes = elim (fgets-cases bytes) [
  | inl e ↦ (record { line = none; rest = [] }, rw e refl, inl refl)
  | inr (chunk, rest, e, shorter) ↦
      let (call, read, lt) =
        read_chunks-round (length bytes) [] bytes chunk rest e shorter
          λ more. read_chunks-some (length bytes) more rest shorter in
      (call, read, inr lt)
]

read_lines-stop :
    (fuel : ℕ) (content bytes : Text) (call : Call)
    → read_line bytes ≡ some call
    → call.line ≡ none
    → read_lines (suc fuel) content bytes ≡ some content
unfolding read_lines
read_lines-stop fuel content bytes call e f = rw (e, f, read_lines) refl

read_lines-next :
    (fuel : ℕ) (content bytes line : Text) (call : Call)
    → read_line bytes ≡ some call
    → call.line ≡ some line
    → read_lines (suc fuel) content bytes
      ≡ read_lines fuel (content ++ (line ++ (10 ∷ []))) call.rest
unfolding read_lines
read_lines-next fuel content bytes line call e f = rw (e, f, read_lines) refl

read_lines-some :
    (fuel : ℕ) (content bytes : Text)
    → length bytes < fuel
    → (result : Text) × (read_lines fuel content bytes ≡ some result)
read_lines-some zero content bytes h = absurd (omega arith)
read_lines-some (suc fuel) content bytes h =
    let (call, read, lt) = read_line-some bytes in
    elim (Option-cases call.line) [
      | inl stop ↦ (content, read_lines-stop fuel content bytes call read stop)
      | inr (line, next) ↦ elim lt [
        | inl stop ↦ absurd (cc (stop, next))
        | inr shorter ↦
            let (result, done) =
              read_lines-some fuel (content ++ (line ++ (10 ∷ []))) call.rest (omega arith) in
            (result, read_lines-next fuel content bytes line call read next ∙ done)
      ]
    ]

-- Every file is read to an end.
pub read_content-some : (bytes : Text) → (content : Text) × (read_content bytes ≡ some content)
unfolding read_content
read_content-some bytes = read_lines-some (suc (length bytes)) [] bytes (omega arith)
