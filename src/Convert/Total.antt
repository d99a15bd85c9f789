-- ===== src/Convert/Total.antt =====
-- When the conversions of src/dbcast2network.cpp give a network.
use dbccpp_tiny.Common.{
  ℕ, ◌^◌, ◌≤◌, ◌<◌, Bool, false, Bool-cases, List, [], ◌∷◌, Option, some, Option-cases, map_all,
  All, inl, inr, ◌⊎◌, ◌≡◌, refl,
}
use dbccpp_tiny.Objects.{Text}
use dbccpp_tiny.Signal.Errors.{Floats}
use dbccpp_tiny.Signal.Object.{SignalImpl, create_signal}
use dbccpp_tiny.Signal.Whole.{layout-some, create_signal-eq-built, built}
use dbccpp_tiny.Message.{MessageImpl}
use dbccpp_tiny.Network.{NetworkImpl}
use dbccpp_tiny.Ast
use dbccpp_tiny.Convert.Cache.{Cache, or_default, build_cache, keep_all}
use dbccpp_tiny.Convert.Signals.{signals, signal_arguments}
use dbccpp_tiny.Convert.Messages.{message_of, get_message, get_messages}
use dbccpp_tiny.Convert.Definitions.{
  DoubleConversion, object_type, is_integral, other_type, value_type, convert_definitions,
  attribute_definitions,
}
use dbccpp_tiny.Convert.Whole.{network_of, dbcast2network, dbcast2network_filtered}
use dbccpp_tiny.Convert.Filtered.{dbcast2network_filtered-eq}

module _ {A B : Type 0} where
  map_all-some :
      (f : A → Option B) (P : A → Type 0)
      → ((a : A) → P a → (b : B) × (f a ≡ some b))
      → (xs : List A) → All P xs
      → (ys : List B) × (map_all f xs ≡ some ys)
  map_all-some f P each [] ps = ([], refl)
  map_all-some f P each (x ∷ xs) (p, ps) =
      let (y, is_y) = each x p in
      let (ys, is_ys) = map_all-some f P each xs ps in (y ∷ ys, rw (is_y, is_ys))

module _ {Double : Type 0} where
  -- The signals and the messages that the constructors are defined for.
  abbrev pub SignalFits : Ast.Signal Double → Type 0
  SignalFits s = (1 ≤ s.length) × (s.length ≤ 64) × (s.start_bit < 2 ^ 64)

  abbrev pub MessageFits : Ast.Message Double → Type 0
  MessageFits m = All SignalFits m.signals

module _ {A : Type 0} where
  abbrev IsSome : Option A → Type 0
  IsSome o = (a : A) × (o ≡ some a)

module _ {Double : Type 0} (conversion : DoubleConversion Double) where
  open conversion use {zero, to_int64}

  -- An attribute definition that is not INT or HEX, or whose bounds convert to `int64_t`.
  abbrev pub DefinitionFits : Ast.AttributeDefinition Double → Type 0
  DefinitionFits ad =
      (is_integral conversion ad ≡ false)
      ⊎ (IsSome (to_int64 (or_default zero ad.min_value))
          × IsSome (to_int64 (or_default zero ad.max_value)))

  value_type-IsSome :
      (ad : Ast.AttributeDefinition Double) → DefinitionFits ad → IsSome (value_type conversion ad)
  unfolding value_type
  value_type-IsSome ad (inl other) = (other_type conversion ad, rw other refl)
  value_type-IsSome ad (inr ((low, is_low), (high, is_high))) =
      elim (Bool-cases (is_integral conversion ad)) [
        | inl e ↦ rw (e, is_low, is_high) (_, refl)
        | inr e ↦ (other_type conversion ad, rw e refl)
      ]

  definitions-IsSome :
      (ads : List (Ast.AttributeDefinition Double))
      → All DefinitionFits ads
      → IsSome (convert_definitions conversion ads)
  unfolding convert_definitions
  definitions-IsSome [] fits = ([], refl)
  definitions-IsSome (ad ∷ ads) (fit, fits) =
      let (rest, is_rest) = definitions-IsSome ads fits in
      let (vt, is_vt) = value_type-IsSome ad fit in
      elim (Option-cases (object_type ad.object_type)) [
        | inl skipped ↦ rw (skipped, convert_definitions) (rest, is_rest)
        | inr (type, is_type) ↦ rw (is_type, is_vt, is_rest, convert_definitions) (_, refl)
      ]

module _ {Double : Type 0} (conversion : DoubleConversion Double) (floats : Floats)
    (net : Ast.Network Double) where
  signal-some :
      (cache : Cache Double) (m : Ast.Message Double) (s : Ast.Signal Double)
      → SignalFits s
      → (o : SignalImpl Double) × (create_signal floats m.size (signal_arguments net cache m.id s)
          ≡ some o)
  unfolding signal_arguments
  signal-some cache m s fits =
      let a = signal_arguments net cache m.id s in
      let (placed, is_placed) = layout-some a.coding fits.0 fits.1 fits.2 in
      (built floats m.size a placed, create_signal-eq-built floats m.size a placed is_placed)

  message-some :
      (cache : Cache Double) (m : Ast.Message Double)
      → MessageFits m
      → (o : MessageImpl Double) × (get_message floats net cache m ≡ some o)
  unfolding get_message signals
  message-some cache m fits =
      let (ss, is_ss) = map_all-some _ SignalFits (signal-some cache m) m.signals fits in
      (message_of net cache m ss, rw is_ss)

  converts :
      All MessageFits net.messages
      → All (DefinitionFits conversion) net.attribute_definitions
      → (result : NetworkImpl Double) × (dbcast2network conversion floats net ≡ some result)
  unfolding dbcast2network get_messages attribute_definitions
  converts fits bounds =
      let cache = build_cache keep_all net in
      let (ms, is_ms) = map_all-some _ MessageFits (message-some cache) net.messages fits in
      let (ds, is_ds) = definitions-IsSome conversion net.attribute_definitions bounds in
      (network_of net cache ms ds, rw (is_ms, is_ds))

  -- If every signal of the syntax tree has a size from 1 to 64 and a start bit below 2 ^ 64, and
  -- each bound of an INT or HEX attribute definition converts to `int64_t`, then both conversions
  -- give a network, for all filters.
  pub dbcast2network-total :
      (message_filter : ℕ → Text → Bool) (signal_filter : Text → ℕ → Bool)
      → All MessageFits net.messages
      → All (DefinitionFits conversion) net.attribute_definitions
      → ((result : NetworkImpl Double) × (dbcast2network conversion floats net ≡ some result))
        × ((result : NetworkImpl Double) × (dbcast2network_filtered conversion floats message_filter
                signal_filter net
              ≡ some result))
  dbcast2network-total message_filter signal_filter fits bounds =
      let (result, is_result) = converts fits bounds in
      (
        (result, is_result),
        (
          _,
          dbcast2network_filtered-eq conversion floats message_filter signal_filter net result
              is_result,
        ),
      )
