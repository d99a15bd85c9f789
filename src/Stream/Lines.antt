-- ===== src/Stream/Lines.antt =====
-- The loop of `parse` depends on its reader only by the lines that the reader gives.
use dbccpp_tiny.Common.{
  ℕ, zero, suc, ◌<◌, List, [], ◌∷◌, Option, none, some, ◌≡◌, refl, ap, ◌∙◌, arith,
}
use dbccpp_tiny.Objects.{Text}
use dbccpp_tiny.Parser.Numbers.{DoubleReader}
use dbccpp_tiny.Reader.Adapters.{LineReader}
use dbccpp_tiny.Stream.State.{
  Current, State, Result, done, failed, thrown, elsewhere, out_of_fuel, bind, Storage,
}
use dbccpp_tiny.Stream.Whole.{Progress, initial, finish, step, with_line, parse_lines, parse}

-- What a reader gives from a state on: lines, each with the line number behind it, and the line
-- number at the end.
pub data Gives (lines : LineReader) : lines.State → List (ℕ × Text) → ℕ → Type 0 where
  ended :
      (s next : lines.State)
      → lines.read_line s ≡ (none, next)
      → Gives lines s [] (lines.line_number next)
  given :
      (s next : lines.State) (line : Text) (rest : List (ℕ × Text)) (last : ℕ)
      → lines.read_line s ≡ (some line, next)
      → Gives lines next rest last
      → Gives lines s ((lines.line_number next, line) ∷ rest) last

-- Every reader gives some lines.
reader-Gives :
    (lines : LineReader) (fuel : ℕ) (s : lines.State)
    → lines.left s < fuel
    → (rest : List (ℕ × Text)) × (last : ℕ) × Gives lines s rest last
reader-Gives lines zero s h = absurd (omega arith)
reader-Gives lines (suc fuel) s h =
    by (lines.read_line s) refl λ next lt. reader-Gives lines fuel next (omega (arith, h, lt))
  where
    by :
        (read : Option Text × lines.State)
        → lines.read_line s ≡ read
        → ((next : lines.State)
            → lines.left next < lines.left s
            → (rest : List (ℕ × Text)) × (last : ℕ) × Gives lines next rest last)
        → (rest : List (ℕ × Text)) × (last : ℕ) × Gives lines s rest last
    by (none, next) e more = ([], lines.line_number next, ended s next e)
    by (some line, next) e more =
        let (rest, last, gives) = more next (lines.shorter s line next e) in
        ((lines.line_number next, line) ∷ rest, last, given s next line rest last e gives)

bind_cong {ℓ κ} :
    {A : Type ℓ} {B : Type κ} (r : Result A) (f g : A → Result B)
    → ((a : A) → f a ≡ g a)
    → bind r f ≡ bind r g
bind_cong (done a) f g h = h a
bind_cong (failed e) f g h = refl
bind_cong thrown f g h = refl
bind_cong elsewhere f g h = refl
bind_cong out_of_fuel f g h = refl

module _ {Double : Type 0} (reader : DoubleReader Double) (storage : Storage Double) where
  -- The steps on lines with their numbers, one after the other.
  unfoldable pub steps : List (ℕ × Text) → ℕ → Progress Double → Result (State Double)
  unfolding step finish
  steps [] last p = finish last p
  steps ((number, line) ∷ rest) last p = bind (step reader storage number line p) (steps rest last)

  module _ (lines : LineReader) where
    -- A round of the loop.
    parse_lines-round :
        (fuel : ℕ) (s : lines.State) (read : Option Text × lines.State) (p : Progress Double)
        → lines.read_line s ≡ read
        → parse_lines reader storage lines (suc fuel) s p
          ≡ with_line reader storage lines (parse_lines reader storage lines fuel) p read
    unfolding parse_lines
    parse_lines-round fuel s read p e =
        ap (with_line reader storage lines (parse_lines reader storage lines fuel) p) e

    parse_lines-steps :
        (fuel : ℕ) (s : lines.State) (rest : List (ℕ × Text)) (last : ℕ) (p : Progress Double)
        → Gives lines s rest last
        → lines.left s < fuel
        → parse_lines reader storage lines fuel s p ≡ steps rest last p
    unfolding steps with_line
    parse_lines-steps zero s rest last p gives h = absurd (omega arith)
    parse_lines-steps (suc fuel) _ _ _ p (ended s next e) h =
        parse_lines-round fuel s (none, next) p e
    parse_lines-steps (suc fuel) _ _ _ p (given s next line rest last e gives) h =
        parse_lines-round fuel s (some line, next) p e
        ∙ bind_cong (step reader storage (lines.line_number next) line p) _ _ λ q.
          parse_lines-steps fuel next rest last q gives
            (omega (arith, h, lines.shorter s line next e))

    -- Parsing from a reader is the steps on the lines that the reader gives, with their numbers.
    pub parse-steps :
        (current : Current) (s : lines.State) (rest : List (ℕ × Text)) (last : ℕ)
        → Gives lines s rest last
        → parse reader storage lines current s ≡ steps rest last (initial current)
    unfolding parse
    parse-steps current s rest last gives =
        parse_lines-steps (suc (lines.left s)) s rest last (initial current) gives (omega arith)

    -- Every parse is the steps on some lines.
    pub parse-some_steps :
        (current : Current) (s : lines.State)
        → (rest : List (ℕ × Text)) × (last : ℕ) × (parse reader storage lines current s
            ≡ steps rest last (initial current))
    parse-some_steps current s =
        let (rest, last, gives) = reader-Gives lines (suc (lines.left s)) s (omega arith) in
        (rest, last, parse-steps current s rest last gives)
