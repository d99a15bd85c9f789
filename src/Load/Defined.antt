-- ===== src/Load/Defined.antt =====
-- When loading a text gives a network.
use dbccpp_tiny.Common.{ℕ, ◌≤◌, Bool, List, [], ◌∷◌, All, ◌≡◌, ap, ◌∙◌}
use dbccpp_tiny.Objects.{Text}
use dbccpp_tiny.Signal.Errors.{Floats}
use dbccpp_tiny.Network.{NetworkImpl}
use dbccpp_tiny.Convert.Definitions.{DoubleConversion}
use dbccpp_tiny.Convert.Total.{SignalFits, MessageFits, DefinitionFits, dbcast2network-total}
use dbccpp_tiny.Lexer.Types.{Token}
use dbccpp_tiny.Parser.Result.{ok}
use dbccpp_tiny.Parser.Numbers.{DoubleReader}
use dbccpp_tiny.Parser.Whole.{parse}
use dbccpp_tiny.Parser.Bounds.Sections.{SignalBits, MessageBits, parse-NetworkBits}
use dbccpp_tiny.Load.{loaded, converted, load_tree, load_dbc_from_string}
use dbccpp_tiny.Ast

module _ {Double : Type 0} where
  -- A signal and a message whose signals have from 1 to 64 bits.
  abbrev pub SizeFits : Ast.Signal Double → Type 0
  SizeFits s = (1 ≤ s.length) × (s.length ≤ 64)

  abbrev pub SizesFit : Ast.Message Double → Type 0
  SizesFit m = All SizeFits m.signals

  signals-fit :
      (ss : List (Ast.Signal Double)) → All SizeFits ss → All SignalBits ss → All SignalFits ss
  signals-fit [] fits bits = tt
  signals-fit (s ∷ ss) ((one, most), fits) ((start, size), bits) =
      ((one, most, start), signals-fit ss fits bits)

  messages-fit :
      (ms : List (Ast.Message Double)) → All SizesFit ms → All MessageBits ms → All MessageFits ms
  messages-fit [] fits bits = tt
  messages-fit (m ∷ ms) (f, fits) ((id, size, b), bits) =
      (signals-fit m.signals f b, messages-fit ms fits bits)

module _ {Double : Type 0} (reader : DoubleReader Double) (conversion : DoubleConversion Double)
    (floats : Floats) where
  -- A text that the parser accepts, whose signals have from 1 to 64 bits, and whose INT and HEX
  -- attribute definitions have bounds that convert to `int64_t`, loads as a network, for all filters.
  pub load_dbc_from_string-loads :
      (content : Text) (message_filter : ℕ → Text → Bool) (signal_filter : Text → ℕ → Bool)
      (net : Ast.Network Double) (rest : List Token)
      → parse reader content ≡ ok net rest
      → All SizesFit net.messages
      → All (DefinitionFits conversion) net.attribute_definitions
      → (result : NetworkImpl Double) × (load_dbc_from_string reader conversion floats content
            message_filter signal_filter
          ≡ loaded result)
  unfolding load_dbc_from_string load_tree
  load_dbc_from_string-loads content message_filter signal_filter net rest e fits bounds =
      let bits = parse-NetworkBits reader content net rest e in
      let (_, total) =
        dbcast2network-total conversion floats net message_filter signal_filter
          (messages-fit net.messages fits bits) bounds in
      (
        total.0,
        ap (load_tree conversion floats message_filter signal_filter) e ∙ ap converted total.1,
      )
