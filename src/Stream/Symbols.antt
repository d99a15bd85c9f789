-- ===== src/Stream/Symbols.antt =====
-- The section NS_: its header, and a symbol on each indented line.
use mathlib.Core.List.{append_assoc, append-nil}
use dbccpp_tiny.Common.{ℕ, true, false, List, [], ◌∷◌, ◌++◌, map, All, ◌≡◌, refl, ap, sym, ◌∙◌}
use dbccpp_tiny.Objects.{Text}
use dbccpp_tiny.Parser.Numbers.{DoubleReader}
use dbccpp_tiny.Stream.Text.{is_empty, trim}
use dbccpp_tiny.Stream.State.{done, bind, Storage}
use dbccpp_tiny.Stream.Whole.{
  Progress, is_comment, is_ns_header, is_indented, with_state, push_symbol, step,
}
use dbccpp_tiny.Stream.Lines.{steps}

-- An indented line that is neither blank nor a comment nor a header.
pub record IsSymbol (line : Text) : Type 0 where
  pub filled : is_empty (trim line) ≡ false
  pub no_comment : is_comment (trim line) ≡ false
  pub no_header : is_ns_header (trim line) ≡ false
  pub indented : is_indented line ≡ true

module _ {Double : Type 0} where
  -- The progress inside the section with these symbols.
  abbrev pub with_symbols : List Text → Progress Double → Progress Double
  with_symbols symbols p =
      with_state p (record p.state { network = record p.state.network { new_symbols = symbols } })

module _ {Double : Type 0} (reader : DoubleReader Double) (storage : Storage Double) where
  step-symbol :
      (number : ℕ) (line : Text) (p : Progress Double)
      → p.in_ns_section ≡ true
      → IsSymbol line
      → step reader storage number line p ≡ done (with_state p (push_symbol (trim line) p.state))
  unfolding step
  step-symbol number line p e h = rw (h.filled, h.no_comment, h.no_header, h.indented, e) refl

  pub steps-symbols :
      (symbols rest : List (ℕ × Text)) (last : ℕ) (p : Progress Double)
      → p.in_ns_section ≡ true
      → All (λ l. IsSymbol l.1) symbols
      → steps reader storage (symbols ++ rest) last p
        ≡ steps reader storage rest last
            (with_symbols (p.state.network.new_symbols ++ map (λ l. trim l.1) symbols) p)
  unfolding steps
  steps-symbols [] rest last p e hs =
      ap (λ symbols. steps reader storage rest last (with_symbols symbols p))
        (sym (append-nil p.state.network.new_symbols))
  steps-symbols ((number, line) ∷ symbols) rest last p e (h, hs) =
      ap (λ r. bind r (steps reader storage (symbols ++ rest) last)) (step-symbol number line p e h)
      ∙ steps-symbols symbols rest last (with_state p (push_symbol (trim line) p.state)) e hs
      ∙ ap (λ names. steps reader storage rest last (with_symbols names p))
          (append_assoc p.state.network.new_symbols (trim line ∷ []) (map (λ l. trim l.1) symbols))
