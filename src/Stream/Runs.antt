-- ===== src/Stream/Runs.antt =====
-- The rounds of `parse`: what they keep, and how they end.
use dbccpp_tiny.Common.{
  ℕ, ◌&&◌, ◌||◌, not, Bool, true, false, if◌then◌else◌, List, [], ◌∷◌, ◌++◌, ◌≡◌, refl, sym, subst,
  codes,
}
use dbccpp_tiny.Objects.{Text}
use dbccpp_tiny.Parser.Result.{ParseError, unexpected_token}
use dbccpp_tiny.Parser.Numbers.{DoubleReader}
use dbccpp_tiny.Reader.Adapters.{LineReader}
use dbccpp_tiny.Stream.Text.{is_empty, trim, should_accumulate, is_statement_complete}
use dbccpp_tiny.Stream.State.{
  Current, State, Result, done, failed, thrown, elsewhere, out_of_fuel, bind, Storage,
}
use dbccpp_tiny.Stream.Whole.{
  at_line, Progress, is_comment, is_ns_header, is_indented, with_state, continue_with,
  enter_ns_section, forget, push_symbol, finish, initial, accumulate, read_statement, step, parse,
}
use dbccpp_tiny.Stream.Route.{parse_statement}
use dbccpp_tiny.Stream.Lines.{steps, parse-some_steps}
use dbccpp_tiny.Stream.Posts.{Post, Kept, KeepsState, Statement, parse_statement-Statement}

-- An error that `parse` reports for a statement.
abbrev pub IsReported : ParseError → Type 0
IsReported e = e.code ≡ unexpected_token

module _ {Double : Type 0} (kept : Kept Double) where
  open kept use {Keeps, Stale}

  -- Between two lines nothing is accumulated.
  pub record Between (p : Progress Double) : Type 0 where
    pub empty : p.accumulated ≡ []
    pub single : p.in_multiline ≡ false
    pub keeps : KeepsState kept p.state

  unfoldable pub Round : Result (Progress Double) → Type 0
  Round = Post Stale IsReported Between

  unfoldable pub Run : Result (State Double) → Type 0
  Run = Post Stale IsReported (KeepsState kept)

  at_line-Round :
      (number : ℕ) (r : Result (State Double)) (k : State Double → Result (Progress Double))
      → Statement kept r
      → ((s : State Double) → KeepsState kept s → Round (k s))
      → Round (bind (at_line number r) k)
  unfolding Statement Round at_line
  at_line-Round number (done s) k h next = next s h
  at_line-Round number (failed e) k h next = refl
  at_line-Round number thrown k h next = tt
  at_line-Round number elsewhere k h next = h
  at_line-Round number out_of_fuel k h next = h

  done-Round : (p : Progress Double) → Between p → Round (done p)
  unfolding Round
  done-Round p h = h

  if-Round :
      (b : Bool) (r q : Result (Progress Double)) → Round r → Round q → Round (if b then r else q)
  if-Round true r q h k = h
  if-Round false r q h k = k

  module _ (reader : DoubleReader Double) (storage : Storage Double) where
    -- A statement that is parsed, and then the next line.
    parse_statement-Round :
        (number : ℕ) (statement : Text) (p : Progress Double)
        (k : State Double → Result (Progress Double))
        → Between p
        → ((s : State Double) → KeepsState kept s → Round (k s))
        → Round (bind (at_line number (parse_statement reader storage statement p.state)) k)
    parse_statement-Round number statement p k h next =
        at_line-Round number (parse_statement reader storage statement p.state) k
          (parse_statement-Statement kept reader storage statement p.state h.keeps) next

    -- A line that starts a signal is complete, since a space is put in front of it.
    accumulate-Round :
        (number : ℕ) (line accumulated : Text) (p : Progress Double)
        → accumulated ≡ []
        → Between p
        → Round (accumulate reader storage number (accumulated ++ (codes " " ++ line)) p)
    unfolding accumulate is_statement_complete
    accumulate-Round number line accumulated p e h = rw e (
        parse_statement-Round number (codes " " ++ line) p (forget p) h
          λ s k. done-Round _ (record { empty = refl; single = refl; keeps = k }))

    read_statement-Round :
        (number : ℕ) (line : Text) (p : Progress Double)
        → Between p
        → Round (read_statement reader storage number line p)
    unfolding read_statement
    read_statement-Round number line p h =
        if-Round (p.in_multiline || should_accumulate line)
          (accumulate reader storage number (p.accumulated ++ (codes " " ++ line)) p)
          (bind (at_line number (parse_statement reader storage line p.state)) (continue_with p))
          (accumulate-Round number line p.accumulated p h.empty h)
          (parse_statement-Round number line p (continue_with p) h λ s k.
            done-Round (with_state p s) (record { empty = h.empty; single = h.single; keeps = k }))

    pub step-Round :
        (number : ℕ) (line : Text) (p : Progress Double)
        → Between p
        → Round (step reader storage number line p)
    unfolding step
    step-Round number line p h =
        let trimmed = trim line in
        let outside : Progress Double = record p { in_ns_section = false } in
        if-Round (is_empty trimmed || is_comment trimmed) _ _
          (done-Round (record p { in_ns_section = p.in_ns_section && not (is_empty trimmed) })
            (record { empty = h.empty; single = h.single; keeps = h.keeps }))
          (if-Round (is_ns_header trimmed) _ _
            (parse_statement-Round number trimmed p (enter_ns_section p) h λ s k.
              done-Round (record p { state = s; in_ns_section = true })
                (record { empty = h.empty; single = h.single; keeps = k }))
            (if-Round (p.in_ns_section && is_indented line) _ _
              (done-Round (with_state p (push_symbol trimmed p.state))
                (record { empty = h.empty; single = h.single; keeps = h.keeps }))
              (read_statement-Round number trimmed outside
                (record { empty = h.empty; single = h.single; keeps = h.keeps }))))

    finish-Run : (number : ℕ) (p : Progress Double) → Between p → Run (finish number p)
    unfolding finish Run
    finish-Run number p h = rw (h.empty) (h.keeps)

    bind-Run :
        (r : Result (Progress Double)) (k : Progress Double → Result (State Double))
        → Round r
        → ((p : Progress Double) → Between p → Run (k p))
        → Run (bind r k)
    unfolding Round Run
    bind-Run (done p) k h next = next p h
    bind-Run (failed e) k h next = h
    bind-Run thrown k h next = tt
    bind-Run elsewhere k h next = h
    bind-Run out_of_fuel k h next = h

    steps-Run :
        (rest : List (ℕ × Text)) (last : ℕ) (p : Progress Double)
        → Between p
        → Run (steps reader storage rest last p)
    unfolding steps
    steps-Run [] last p h = finish-Run last p h
    steps-Run ((number, line) ∷ rest) last p h =
        bind-Run _ _ (step-Round number line p h) λ q k. steps-Run rest last q k

    pub parse-Run :
        (lines : LineReader) (current : Current) (s : lines.State)
        → Keeps current []
        → Run (parse reader storage lines current s)
    parse-Run lines current s h =
        let (rest, last, e) = parse-some_steps reader storage lines current s in
        subst Run (sym e) (
          steps-Run rest last (initial current) (record { empty = refl; single = refl; keeps = h }))
