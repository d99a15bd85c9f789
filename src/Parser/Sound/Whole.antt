-- ===== src/Parser/Sound/Whole.antt =====
-- `parse` ends on every input, and its errors are at tokens of the input.
use dbccpp_tiny.Common.{
  ℕ, zero, suc, ◌<◌, Bool, true, false, not, Bool-cases, inl, inr, List, [], ◌∷◌, ◌++◌, length, All,
  some, ◌≡◌, refl, subst, arith,
}
use dbccpp_tiny.Objects.{Text}
use dbccpp_tiny.Lexer.Types.{end_of_file, Token}
use dbccpp_tiny.Lexer.Tokenize.{tokenize}
use dbccpp_tiny.Lexer.Total.{Laid, tokenize-Laid}
use dbccpp_tiny.Parser.Result.{ParseError, Outcome, ok, err, thrown, Parser, bind}
use dbccpp_tiny.Parser.Numbers.{DoubleReader}
use dbccpp_tiny.Parser.Basic.{current, starts}
use dbccpp_tiny.Parser.Whole.{
  parse_head, add_to, parse_section, parse_sections, parse_tokens, parse,
}
use dbccpp_tiny.Parser.Sound.Steps.{
  Plain, Passed, Passed-stay, length-Passed, At, Ends, passed, rejected, raised, Ends-bind,
  Ends-relax, Under, Sound, anywhere, if_next-Under, bind-Under, then-Under, pure-Sound,
}
use dbccpp_tiny.Parser.Sound.Basic.{sound_rules, Tests, skip_token-Under}
use dbccpp_tiny.Parser.Sound.Signals.{
  parse_message-Sound, parse_signal_type-Sound, parse_message_transmitter-Sound,
}
use dbccpp_tiny.Parser.Sound.Sections.{
  parse_version-Sound, parse_new_symbols-Sound, parse_bit_timing-Sound, parse_nodes-Sound,
  parse_comment-Sound, parse_attribute_definition-Sound, parse_attribute_value-Sound,
  parse_attribute_default-Sound, parse_value_table-Sound, parse_value_description-Sound,
  parse_signal_multiplexer_value-Sound, parse_signal_group-Sound,
  parse_signal_extended_value_type-Sound,
}
use dbccpp_tiny.Ast

-- An end of file at the end, and nowhere before it.
abbrev pub Closed : List Token → Type 0
Closed [] = ⊥
Closed (t ∷ []) = t.type ≡ end_of_file
Closed (t ∷ u ∷ ts) = Plain t.type × Closed (u ∷ ts)

Laid-Closed : (before rest : Text) (ts : List Token) → Laid before rest ts → Closed ts
Laid-Closed before rest [] laid = laid
Laid-Closed before rest (t ∷ []) laid = laid
Laid-Closed before rest (t ∷ u ∷ ts) (f, laid) = (f.no_end, Laid-Closed _ _ (u ∷ ts) laid)

-- Plain tokens stand before the end.
Closed-rest :
    (read rest : List Token) → All (λ t. Plain t.type) read → Closed (read ++ rest) → Closed rest
Closed-rest [] rest plain closed = closed
Closed-rest (t ∷ []) [] (p, plain) closed = absurd (ground (arith, p, closed))
Closed-rest (t ∷ []) (u ∷ us) (p, plain) (q, closed) = closed
Closed-rest (t ∷ u ∷ us) rest (p, plain) (q, closed) = Closed-rest (u ∷ us) rest plain closed

Closed-Passed : {n : Bool} {ts rest : List Token} → Closed ts → Passed n ts rest → Closed rest
Closed-Passed {rest} closed p = Closed-rest p.read rest p.plain (subst Closed p.split closed)

-- The tokens left are at the end of the file.
abbrev pub AtEnd {ℓ} : {A : Type ℓ} → Outcome A → Type 0
AtEnd (ok a rest) = starts end_of_file rest ≡ true
AtEnd _ = Unit

bind-AtEnd {ℓ κ} :
    {A : Type ℓ} {B : Type κ} (r : Outcome A) (f : A → Parser B)
    → ((a : A) (rest : List Token) → AtEnd (f a rest))
    → AtEnd (bind r f)
bind-AtEnd (ok a rest) f h = h a rest
bind-AtEnd (err e) f h = tt
bind-AtEnd thrown f h = tt
bind-AtEnd _ f h = tt

-- What `parse` makes of the tokens: all of them are read but the last, or the error is at one of
-- them, or a conversion throws.
pub data Answers {A : Type 0} (ts : List Token) : Outcome A → Type 0 where
  parsed :
      {a : A} (read : List Token) (t : Token)
      → ts ≡ read ++ (t ∷ [])
      → t.type ≡ end_of_file
      → Answers ts (ok a (t ∷ []))
  refused :
      {e : ParseError} (read rest : List Token) (t : Token)
      → ts ≡ read ++ (t ∷ rest)
      → At e (t ∷ rest)
      → Answers ts (err e)
  stopped : Answers ts thrown

refused-Answers :
    {A : Type 0} {ts rest : List Token} {e : ParseError}
    → Closed ts
    → Passed false ts rest
    → At e rest
    → Answers {A = A} ts (err e)
refused-Answers {rest = []} closed p at = absurd (Closed-Passed closed p)
refused-Answers {rest = t ∷ rest} closed p at = refused p.read rest t p.split at

Ends-Answers :
    {A : Type 0} {ts : List Token} (r : Outcome A)
    → Closed ts
    → Ends false ts r
    → AtEnd r
    → Answers ts r
unfolding starts current
Ends-Answers (ok a []) closed (passed p) end = absurd (Closed-Passed closed p)
Ends-Answers (ok a (t ∷ [])) closed (passed p) end =
    parsed p.read t p.split (Closed-Passed closed p)
Ends-Answers (ok a (t ∷ u ∷ us)) closed (passed p) end =
    absurd (ground (arith, (Closed-Passed closed p).0, end))
Ends-Answers (err e) closed (rejected p at) end = refused-Answers closed p at
Ends-Answers thrown closed raised end = stopped
Ends-Answers Outcome.unfinished closed ends end = elim ends [ ]

add_to-Under :
    {A : Type 0} {N : Type 0} {test : List Token → Bool} {n : Bool} {p : Parser A} (f : A → N)
    → Sound n p
    → Under test n (add_to p f)
add_to-Under f s = anywhere (bind-Under s λ a. pure-Sound _)

ruleset section_rules = (
  parse_message-Sound, parse_signal_type-Sound, parse_message_transmitter-Sound,
  parse_version-Sound, parse_new_symbols-Sound, parse_bit_timing-Sound, parse_nodes-Sound,
  parse_comment-Sound, parse_attribute_definition-Sound, parse_attribute_value-Sound,
  parse_attribute_default-Sound, parse_value_table-Sound, parse_value_description-Sound,
  parse_signal_multiplexer_value-Sound, parse_signal_group-Sound,
  parse_signal_extended_value_type-Sound,
)

abbrev goes_on : List Token → Bool
goes_on ts = not (starts end_of_file ts)

goes_on-Tests : Tests goes_on
unfolding starts
goes_on-Tests ts h = ground (arith, h)

module _ {Double : Type 0} (reader : DoubleReader Double) where
  parse_head-Sound : Sound false (parse_head reader)
  unfolding parse_head
  parse_head-Sound = search (sound_rules, section_rules, anywhere) depth 9

  parse_section-Under : (net : Ast.Network Double) → Under goes_on true (parse_section reader net)
  unfolding parse_section
  parse_section-Under net =
      search
        (
          if_next-Under, add_to-Under, then-Under, skip_token-Under, pure-Sound, goes_on-Tests,
          section_rules,
        )
        depth 20

  parse_sections-Ends :
      (fuel : ℕ) (net : Ast.Network Double) (ts : List Token)
      → length ts < fuel
      → Ends false ts (parse_sections reader fuel net ts)
  unfolding parse_sections
  parse_sections-Ends zero net ts h = absurd (omega arith)
  parse_sections-Ends (suc fuel) net ts h = elim (Bool-cases (starts end_of_file ts)) [
    | inl e ↦ rw (e, parse_sections) (passed (Passed-stay ts))
    | inr e ↦
        let section = (parse_section-Under net).run ts (ground (arith, e)) in
        rw (e, parse_sections)
          (Ends-relax (
            Ends-bind section
              λ next rest p. parse_sections-Ends fuel next rest (omega (arith, length-Passed p))))
  ]

  parse_sections-AtEnd :
      (fuel : ℕ) (net : Ast.Network Double) (ts : List Token)
      → AtEnd (parse_sections reader fuel net ts)
  unfolding parse_sections
  parse_sections-AtEnd zero net ts = tt
  parse_sections-AtEnd (suc fuel) net ts = elim (Bool-cases (starts end_of_file ts)) [
    | inl e ↦ rw (e, AtEnd, parse_sections) e
    | inr e ↦
        rw (e, AtEnd, parse_sections)
          (bind-AtEnd (parse_section reader net ts) (parse_sections reader fuel)
            (parse_sections-AtEnd fuel))
  ]

  parse_tokens-Answers : (ts : List Token) → Closed ts → Answers ts (parse_tokens reader ts)
  unfolding parse_tokens
  parse_tokens-Answers ts closed =
      Ends-Answers (parse_tokens reader ts) closed
        (Ends-bind (parse_head-Sound.run ts refl)
          λ net rest _. parse_sections-Ends (suc (length rest)) net rest (omega arith))
        (bind-AtEnd (parse_head reader ts)
          (λ net rest. parse_sections reader (suc (length rest)) net rest)
          λ net rest. parse_sections-AtEnd (suc (length rest)) net rest)

  -- For every input `parse` ends, within the rounds that the tokens allow: it gives a network when
  -- all tokens are read but the end of the file, or an error with the line and the column of one
  -- of the tokens, or a number conversion throws.
  pub parse-Answers :
      (input : Text)
      → (ts : List Token) × (tokenize input ≡ some ts) × Answers ts (parse reader input)
  unfolding parse
  parse-Answers input =
      let (ts, lexed, laid) = tokenize-Laid input in
      (ts, lexed, rw (lexed, parse) (parse_tokens-Answers ts (Laid-Closed [] input ts laid)))
