-- ===== src/Stream/Whole.antt =====
-- `parse`, `parseFile` and `parseString`.
use dbccpp_tiny.Common.{
  ℕ, zero, suc, ◌==◌, Bool, true, false, not, ◌&&◌, ◌||◌, if◌then◌else◌, [], ◌∷◌, ◌++◌, Option,
  none, some, codes, text_eq,
}
use dbccpp_tiny.Objects.{Text}
use dbccpp_tiny.Parser.Result.{ParseError, unexpected_token, unexpected_end_of_file}
use dbccpp_tiny.Parser.Numbers.{decimal, DoubleReader}
use dbccpp_tiny.Parser.Whole.{with_head}
use dbccpp_tiny.Reader.Adapters.{
  LineReader, file_adapter, string_adapter, is_open, open_adapter, string_reader,
}
use dbccpp_tiny.Stream.Text.{is_empty, trim, starts_with, should_accumulate, is_statement_complete}
use dbccpp_tiny.Stream.State.{Current, State, Result, done, failed, out_of_fuel, bind, Storage}
use dbccpp_tiny.Stream.Route.{parse_statement}

-- `toString`
unfoldable pub to_string : ParseError → Text
to_string e =
    codes "Parse error at line "
    ++ (decimal e.line ++ (codes ", column " ++ (decimal e.column ++ (codes ": " ++ e.message))))

-- The error of a statement, reported at the line that was read last.
unfoldable pub at_line {ℓ} : {A : Type ℓ} → ℕ → Result A → Result A
unfolding to_string
at_line number (failed e) =
    failed (record { code = unexpected_token; message = to_string e; line = number; column = 0 })
at_line number r = r

-- What the loop of `parse` keeps from line to line.
pub record Progress (Double : Type 0) : Type 0 where
  pub state : State Double
  pub accumulated : Text
  pub in_multiline : Bool
  pub in_ns_section : Bool

abbrev pub is_comment : Text → Bool
is_comment line = starts_with (codes "//") line

abbrev pub is_ns_header : Text → Bool
is_ns_header line = text_eq line (codes "NS_ :") || text_eq line (codes "NS_:")

-- Does the line start with a tab or a space?
abbrev pub is_indented : Text → Bool
is_indented [] = false
is_indented (c ∷ cs) = c == 9 || c == 32

module _ {Double : Type 0} where
  abbrev pub with_state : Progress Double → State Double → Progress Double
  with_state p s = record p { state = s }

  -- What follows a statement without an error.
  abbrev pub continue_with : Progress Double → State Double → Result (Progress Double)
  continue_with p s = done (with_state p s)

  abbrev pub enter_ns_section : Progress Double → State Double → Result (Progress Double)
  enter_ns_section p s = done (record p { state = s; in_ns_section = true })

  abbrev pub forget : Progress Double → State Double → Result (Progress Double)
  forget p s = done (record p { state = s; accumulated = []; in_multiline = false })

  -- `network->new_symbols.push_back(symbol)`
  abbrev pub push_symbol : Text → State Double → State Double
  push_symbol symbol s = record s {
    network = record s.network { new_symbols = s.network.new_symbols ++ (symbol ∷ []) };
  }

  -- Behind the last line.
  unfoldable pub finish : ℕ → Progress Double → Result (State Double)
  finish number p =
      if is_empty p.accumulated
      then done p.state
      else failed (record {
        code = unexpected_end_of_file;
        message = codes "Incomplete statement at end of file";
        line = number;
        column = 0;
      })

  abbrev pub initial : Current → Progress Double
  initial current = record {
    state = record { network = with_head [] [] none []; current = current };
    accumulated = [];
    in_multiline = false;
    in_ns_section = false;
  }

module _ {Double : Type 0} (reader : DoubleReader Double) (storage : Storage Double) where
  -- The lines accumulated so far.
  unfoldable pub accumulate : ℕ → Text → Progress Double → Result (Progress Double)
  unfolding at_line is_statement_complete parse_statement
  accumulate number statement p =
      if is_statement_complete statement
      then bind (at_line number (parse_statement reader storage statement p.state)) (forget p)
      else done (record p { accumulated = statement; in_multiline = true })

  -- A line outside the section NS_, trimmed.
  unfoldable pub read_statement : ℕ → Text → Progress Double → Result (Progress Double)
  unfolding at_line should_accumulate accumulate parse_statement
  read_statement number line p =
      if p.in_multiline || should_accumulate line
      then accumulate number (p.accumulated ++ (codes " " ++ line)) p
      else bind (at_line number (parse_statement reader storage line p.state)) (continue_with p)

  -- A round of the loop, on the line with its number.
  unfoldable pub step : ℕ → Text → Progress Double → Result (Progress Double)
  unfolding at_line trim parse_statement read_statement
  step number line p =
      let trimmed = trim line in
      if is_empty trimmed || is_comment trimmed
      then done (record p { in_ns_section = p.in_ns_section && not (is_empty trimmed) })
      else if is_ns_header trimmed
      then bind (at_line number (parse_statement reader storage trimmed p.state))
          (enter_ns_section p)
      else if p.in_ns_section && is_indented line
      then done (with_state p (push_symbol trimmed p.state))
      else read_statement number trimmed (record p { in_ns_section = false })

  module _ (lines : LineReader) where
    -- What the loop does with a line, and behind the last one.
    unfoldable pub with_line :
        (lines.State → Progress Double → Result (State Double))
        → Progress Double
        → Option Text × lines.State
        → Result (State Double)
    unfolding step finish
    with_line more p (none, next) = finish (lines.line_number next) p
    with_line more p (some line, next) = bind (step (lines.line_number next) line p) (more next)

    -- The loop over the lines.
    unfoldable pub parse_lines : ℕ → lines.State → Progress Double → Result (State Double)
    unfolding with_line
    parse_lines zero r p = out_of_fuel
    parse_lines (suc fuel) r p = with_line (parse_lines fuel) p (lines.read_line r)

    -- `current` is `current_message_` at the call.
    unfoldable pub parse : Current → lines.State → Result (State Double)
    unfolding parse_lines
    parse current r = parse_lines (suc (lines.left r)) r (initial current)

  unfoldable pub parse_file : (Text → Option Text) → Text → Current → Result (State Double)
  unfolding open_adapter parse
  parse_file files filename current =
      let r = open_adapter files filename in
      if is_open r
      then parse file_adapter current r
      else failed (record {
        code = unexpected_token;
        message = codes "Cannot open file: " ++ filename;
        line = 0;
        column = 0;
      })

  unfoldable pub parse_string : Text → Current → Result (State Double)
  unfolding parse
  parse_string input current = parse string_adapter current (string_reader input)
