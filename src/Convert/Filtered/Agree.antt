-- ===== src/Convert/Filtered/Agree.antt =====
-- The caches of src/dbcast2network.cpp agree on what both keep.
use dbccpp_tiny.Common.{
  ℕ, ◌%◌, ◌^◌, Bool, true, List, [], ◌∷◌, All, map_cong, map_all-cong, ◌≡◌, ap, sym, ◌∙◌, arith,
}
use dbccpp_tiny.Objects.{Text}
use dbccpp_tiny.Signal.Errors.{Floats}
use dbccpp_tiny.Signal.Object.{SignalImpl, create_signal}
use dbccpp_tiny.Ast
use dbccpp_tiny.Convert.Cache.{build_cache, is_kept}
use dbccpp_tiny.Convert.Scanned.{
  signal_attributes-eq-scan, message_attributes-eq-scan, node_attributes-eq-scan,
  network_attributes-eq-scan, value_descriptions-eq-scan,
}
use dbccpp_tiny.Convert.Objects.{nodes, network_attributes}
use dbccpp_tiny.Convert.Signals.{signals, signal_arguments}
use dbccpp_tiny.Convert.Messages.{message_of}

All-map :
    {A : Type 0} (P Q : A → Type 0) → ((a : A) → P a → Q a) → (xs : List A) → All P xs → All Q xs
All-map P Q f [] ps = ps
All-map P Q f (x ∷ xs) (p, ps) = (f x p, All-map P Q f xs ps)

module _ {Double : Type 0} (message_filter : ℕ → Text → Bool) where
  -- Every message that the filter keeps has a kept identifier.
  abbrev pub keeps : Ast.Message Double → Bool
  keeps m = message_filter (m.id % 2 ^ 32) m.name

  is_kept-head :
      (m : Ast.Message Double) (ms : List (Ast.Message Double))
      → keeps m ≡ true
      → is_kept message_filter (m ∷ ms) m.id ≡ true
  unfolding is_kept
  is_kept-head m ms h = ground (arith, h)

  is_kept-tail :
      (m : Ast.Message Double) (ms : List (Ast.Message Double)) (id : ℕ)
      → is_kept message_filter ms id ≡ true
      → is_kept message_filter (m ∷ ms) id ≡ true
  unfolding is_kept
  is_kept-tail m ms id h = ground (arith, h)

  pub is_kept-All :
      (ms : List (Ast.Message Double))
      → All (λ m. keeps m ≡ true → is_kept message_filter ms m.id ≡ true) ms
  is_kept-All [] = tt
  is_kept-All (m ∷ ms) =
      (is_kept-head m ms, All-map _ _ (λ n f h. is_kept-tail m ms n.id (f h)) ms (is_kept-All ms))

module _ {Double : Type 0} (kept other : ℕ → Bool) (net : Ast.Network Double) where
  -- Two caches agree on whatever both keep.
  pub same_arguments :
      (id : ℕ) (s : Ast.Signal Double)
      → kept id ≡ true
      → other id ≡ true
      → signal_arguments net (build_cache kept net) id s
        ≡ signal_arguments net (build_cache other net) id s
  unfolding signal_arguments
  same_arguments id s h g = rw (
    signal_attributes-eq-scan kept net id s.name h,
    signal_attributes-eq-scan other net id s.name g,
    value_descriptions-eq-scan kept net id s.name h,
    value_descriptions-eq-scan other net id s.name g,
  )

  pub same_nodes : nodes net (build_cache kept net) ≡ nodes net (build_cache other net)
  unfolding nodes
  same_nodes =
      map_cong _ _
        (λ name.
          ap (λ avs. record { name = name; attribute_values = avs })
            (node_attributes-eq-scan kept net name ∙ sym (node_attributes-eq-scan other net name)))
        net.nodes

  pub same_network :
      network_attributes (build_cache kept net) ≡ network_attributes (build_cache other net)
  same_network = network_attributes-eq-scan kept net ∙ sym (network_attributes-eq-scan other net)

  pub same_signals :
      (floats : Floats) (m : Ast.Message Double)
      → kept m.id ≡ true
      → other m.id ≡ true
      → signals floats net (build_cache kept net) m ≡ signals floats net (build_cache other net) m
  unfolding signals
  same_signals floats m h g =
      map_all-cong _ _ (λ s. ap (create_signal floats m.size) (same_arguments m.id s h g)) m.signals

  pub same_message :
      (m : Ast.Message Double) (ss : List (SignalImpl Double))
      → kept m.id ≡ true
      → other m.id ≡ true
      → message_of net (build_cache kept net) m ss ≡ message_of net (build_cache other net) m ss
  unfolding message_of
  same_message m ss h g =
      rw (message_attributes-eq-scan kept net m.id h, message_attributes-eq-scan other net m.id g)
