-- ===== src/Convert/Filtered.antt =====
-- The filtered conversion of src/dbcast2network.cpp against the plain one.
pub mod Agree
use dbccpp_tiny.Common.{
  ℕ, ◌%◌, ◌^◌, Bool, true, Bool-cases, Option-cases, List, [], ◌∷◌, map, map_all, Option, some,
  ◌>>=◌, filter, All, map_cong, map_all-cong, some_inj, no_result, inl, inr, ◌≡◌, refl, ap, sym,
  ◌∙◌, arith,
}
use dbccpp_tiny.Objects.{Text, AttributeDefinition}
use dbccpp_tiny.Signal.Errors.{Floats}
use dbccpp_tiny.Signal.Object.{SignalImpl, create_signal}
use dbccpp_tiny.Message.{MessageImpl, create_message}
use dbccpp_tiny.Network.{NetworkImpl}
use dbccpp_tiny.Ast
use dbccpp_tiny.Convert.Cache.{Cache, build_cache, keep_all, is_kept}
use dbccpp_tiny.Convert.Scanned.{
  signal_attributes-eq-scan, message_attributes-eq-scan, node_attributes-eq-scan,
  network_attributes-eq-scan, value_descriptions-eq-scan,
}
use dbccpp_tiny.Convert.Objects.{nodes, network_attributes}
use dbccpp_tiny.Convert.Signals.{signals, signal_arguments}
use dbccpp_tiny.Convert.Messages.{
  message_of, get_message, get_messages, get_message_filtered, get_messages_filtered,
}
use dbccpp_tiny.Convert.Definitions.{DoubleConversion, attribute_definitions}
use dbccpp_tiny.Convert.Whole.{network_of, dbcast2network, dbcast2network_filtered}
use dbccpp_tiny.Convert.Filtered.Agree.{
  keeps, is_kept-All, same_nodes, same_network, same_signals, same_message,
}

module _ {Double : Type 0} where
  -- A built message with the signals that a filter keeps: it is built anew from them.
  unfoldable pub keep_signals : (Text → ℕ → Bool) → MessageImpl Double → MessageImpl Double
  keep_signals signal_filter m =
      create_message m.id m.name m.message_size m.transmitter m.message_transmitters
        (filter (λ s. signal_filter s.name (m.id % 2 ^ 32)) m.signals) m.attribute_values
        m.signal_groups

  message_of-keep :
      (signal_filter : Text → ℕ → Bool) (net : Ast.Network Double) (c : Cache Double)
      (m : Ast.Message Double) (ss : List (SignalImpl Double))
      → message_of net c m (filter (λ s. signal_filter s.name (m.id % 2 ^ 32)) ss)
        ≡ keep_signals signal_filter (message_of net c m ss)
  unfolding message_of keep_signals create_message
  message_of-keep signal_filter net c m ss = refl

module _ {Double : Type 0} (floats : Floats) (message_filter : ℕ → Text → Bool)
    (signal_filter : Text → ℕ → Bool) (net : Ast.Network Double) where
  abbrev kept : ℕ → Bool
  kept = is_kept message_filter net.messages

  abbrev plain : Cache Double
  plain = build_cache keep_all net

  abbrev filtered : Cache Double
  filtered = build_cache kept net

  abbrev wanted : MessageImpl Double → Bool
  wanted m = message_filter (m.id % 2 ^ 32) m.name

  keeps-wanted :
      (m : Ast.Message Double) (ss : List (SignalImpl Double))
      → wanted (message_of net plain m ss) ≡ keeps message_filter m
  unfolding message_of create_message
  keeps-wanted m ss = refl

  one_filtered :
      (m : Ast.Message Double) (ss : List (SignalImpl Double))
      → kept m.id ≡ true
      → signals floats net plain m ≡ some ss
      → get_message_filtered floats net filtered signal_filter m
        ≡ some (keep_signals signal_filter (message_of net plain m ss))
  unfolding get_message_filtered
  one_filtered m ss h e = rw (
    sym (same_signals keep_all kept net floats m refl h),
    e,
    sym (
        same_message keep_all kept net m (filter (λ s. signal_filter s.name (m.id % 2 ^ 32)) ss)
          refl h),
    message_of-keep signal_filter net plain m ss,
  )

  wanted-map :
      (m : Ast.Message Double) (ms : List (Ast.Message Double)) (ss : List (SignalImpl Double))
      (rest : List (MessageImpl Double))
      → (keeps message_filter m ≡ true → kept m.id ≡ true)
      → signals floats net plain m ≡ some ss
      → map_all
          (get_message_filtered floats net filtered signal_filter)
          (filter (keeps message_filter) ms)
        ≡ some (map (keep_signals signal_filter) (filter wanted rest))
      → map_all
          (get_message_filtered floats net filtered signal_filter)
          (filter (keeps message_filter) (m ∷ ms))
        ≡ some (map (keep_signals signal_filter) (filter wanted (message_of net plain m ss ∷ rest)))
  wanted-map m ms ss rest k e tail = elim (Bool-cases (keeps message_filter m)) [
    | inl b ↦ rw (b, keeps-wanted m ss, b, one_filtered m ss (k b) e, tail)
    | inr b ↦ rw (b, keeps-wanted m ss, b, tail)
  ]

  filtered_messages :
      (ms : List (Ast.Message Double)) (built : List (MessageImpl Double))
      → All (λ m. keeps message_filter m ≡ true → kept m.id ≡ true) ms
      → map_all (get_message floats net plain) ms ≡ some built
      → map_all
          (get_message_filtered floats net filtered signal_filter)
          (filter (keeps message_filter) ms)
        ≡ some (map (keep_signals signal_filter) (filter wanted built))
  unfolding get_message
  filtered_messages [] built k e =
      ap (λ xs. some (map (keep_signals signal_filter) (filter wanted xs))) (some_inj e)
  filtered_messages (m ∷ ms) built (k, ks) e = elim (Option-cases (signals floats net plain m)) [
    | inl failed ↦ absurd (no_result (ap first failed) e)
    | inr (ss, done) ↦ elim (Option-cases (map_all (get_message floats net plain) ms)) [
      | inl failed ↦ absurd (no_result (ap first done ∙ ap (second ss) failed) e)
      | inr (rest, rest_done) ↦
          wanted-map m ms ss rest k done (filtered_messages ms rest ks rest_done)
          ∙ ap (λ xs. some (map (keep_signals signal_filter) (filter wanted xs)))
              (some_inj (sym (ap first done ∙ ap (second ss) rest_done) ∙ e))
    ]
  ]
    where
      first : Option (List (SignalImpl Double)) → Option (List (MessageImpl Double))
      first o = (o >>= λ ss. some (message_of net plain m ss)) >>= λ y.
          map_all (get_message floats net plain) ms >>= λ ys. some (y ∷ ys)

      second :
          List (SignalImpl Double)
          → Option (List (MessageImpl Double))
          → Option (List (MessageImpl Double))
      second ss o = o >>= λ ys. some (message_of net plain m ss ∷ ys)

module _ {Double : Type 0} (conversion : DoubleConversion Double) (floats : Floats)
    (message_filter : ℕ → Text → Bool) (signal_filter : Text → ℕ → Bool)
    (net : Ast.Network Double) where
  same_network_of :
      (kept : ℕ → Bool) (ms : List (MessageImpl Double)) (ds : List (AttributeDefinition Double))
      → network_of net (build_cache kept net) ms ds
        ≡ network_of net (build_cache keep_all net) ms ds
  unfolding network_of
  same_network_of kept ms ds = rw (same_nodes kept keep_all net, same_network kept keep_all net)

  -- When the plain conversion gives a network, the filtered one gives the same network, with the
  -- messages that the message filter keeps, each rebuilt from the signals that the signal filter
  -- keeps. The caches of the filtered conversion, which leave values out, change nothing else.
  pub dbcast2network_filtered-eq :
      (result : NetworkImpl Double)
      → dbcast2network conversion floats net ≡ some result
      → dbcast2network_filtered conversion floats message_filter signal_filter net
        ≡ some (record result {
          messages =
              map
                (keep_signals signal_filter)
                (filter (λ m. message_filter (m.id % 2 ^ 32) m.name) result.messages);
        })
  unfolding dbcast2network dbcast2network_filtered get_messages get_messages_filtered
  dbcast2network_filtered-eq result e =
      let built = map_all (get_message floats net (build_cache keep_all net)) net.messages in
      let defined = attribute_definitions conversion net in
      elim (Option-cases built) [
        | inl no_messages ↦ absurd (no_result (ap (whole defined) no_messages) e)
        | inr (ms, done) ↦ elim (Option-cases defined) [
          | inl undefined ↦
              absurd (no_result (ap (whole defined) done ∙ ap (behind ms) undefined) e)
          | inr (ds, is_ds) ↦
              ap filtered_whole (
                filtered_messages floats message_filter signal_filter net net.messages ms
                  (is_kept-All message_filter net.messages) done)
              ∙ ap
                  (λ o. o >>= λ xs. some (
                    network_of net filtered_cache
                      (map (keep_signals signal_filter)
                        (filter (λ m. message_filter (m.id % 2 ^ 32) m.name) ms))
                      xs))
                  is_ds
              ∙ ap some (same_network_of (is_kept message_filter net.messages) _ ds)
              ∙ ap (λ n. some (chosen n))
                  (some_inj (sym (ap (whole defined) done ∙ ap (behind ms) is_ds) ∙ e))
        ]
      ]
    where
      filtered_cache : Cache Double
      filtered_cache = build_cache (is_kept message_filter net.messages) net

      behind :
          List (MessageImpl Double)
          → Option (List (AttributeDefinition Double))
          → Option (NetworkImpl Double)
      behind ms o = o >>= λ ds. some (network_of net (build_cache keep_all net) ms ds)

      whole :
          Option (List (AttributeDefinition Double))
          → Option (List (MessageImpl Double))
          → Option (NetworkImpl Double)
      whole defined o = o >>= λ ms. behind ms defined

      filtered_whole : Option (List (MessageImpl Double)) → Option (NetworkImpl Double)
      filtered_whole o = o >>= λ ms.
          attribute_definitions conversion net >>= λ ds. some (network_of net filtered_cache ms ds)

      chosen : NetworkImpl Double → NetworkImpl Double
      chosen n = record n {
        messages =
            map (keep_signals signal_filter)
              (filter (λ m. message_filter (m.id % 2 ^ 32) m.name) n.messages);
      }
