-- ===== src/Convert/Cache/Built.antt =====
-- What `build_cache` leaves in the cache, by the steps of its loops.
use dbccpp_tiny.Common.{
  ℕ, Bool, true, if◌then◌else◌, List, [], ◌∷◌, ◌++◌, none, filter, ◌≡◌, refl, ap, ◌∙◌,
}
use dbccpp_tiny.Objects.{Text}
use dbccpp_tiny.Ast.{AttributeValue, ValueDescription, Network}
use dbccpp_tiny.Convert.Cache.{
  Cache, find_signal, add_description, cache_attribute, cache_attributes, cache_descriptions,
  build_cache,
}
use dbccpp_tiny.Convert.Cache.Scan.{
  one_if, signal_match, message_match, node_match, network_match, last_description, cached_signal,
  cached_message, cached_node, cached_description, append_nil, append_one, add_signal_lem,
  add_message_lem, add_node_lem, add_network_lem, keep_description, add_description_lem,
  descriptions-signal, descriptions-message, descriptions-node, descriptions-network,
}

module _ {Double : Type 0} where
  -- A part of the cache that every round extends by the values that match, holds all of them.
  loop_lem :
      (kept : ℕ → Bool) (part : Cache Double → List (AttributeValue Double))
      (p : AttributeValue Double → Bool)
      → ((av : AttributeValue Double) (c : Cache Double)
          → part (cache_attribute kept av c) ≡ part c ++ one_if (p av) av)
      → (avs : List (AttributeValue Double)) (c : Cache Double)
      → part (cache_attributes kept avs c) ≡ part c ++ filter p avs
  unfolding cache_attributes
  loop_lem kept part p step [] c = append_nil _
  loop_lem kept part p step (av ∷ avs) c =
      loop_lem kept part p step avs (cache_attribute kept av c)
      ∙ ap (λ xs. xs ++ filter p avs) (step av c)
      ∙ append_one (part c) (p av) av (filter p avs)

  -- A part that no round of the second loop changes stays as it is.
  stays :
      {A : Type 0} (kept : ℕ → Bool) (part : Cache Double → A)
      → ((vd : ValueDescription) (c : Cache Double)
          → part (if kept vd.message_id then add_description vd c else c) ≡ part c)
      → (vds : List ValueDescription) (c : Cache Double)
      → part (cache_descriptions kept vds c) ≡ part c
  unfolding cache_descriptions
  stays kept part step [] c = refl
  stays kept part step (vd ∷ vds) c = stays kept part step vds _ ∙ step vd c

  stays_attributes :
      {A : Type 0} (kept : ℕ → Bool) (part : Cache Double → A)
      → ((av : AttributeValue Double) (c : Cache Double)
          → part (cache_attribute kept av c) ≡ part c)
      → (avs : List (AttributeValue Double)) (c : Cache Double)
      → part (cache_attributes kept avs c) ≡ part c
  unfolding cache_attributes
  stays_attributes kept part step [] c = refl
  stays_attributes kept part step (av ∷ avs) c = stays_attributes kept part step avs _ ∙ step av c

  descriptions_lem :
      (kept : ℕ → Bool) (id : ℕ) (name : Text)
      → kept id ≡ true
      → (vds : List ValueDescription) (c : Cache Double)
      → cached_description (cache_descriptions kept vds c) id name
        ≡ last_description id name vds (cached_description c id name)
  unfolding cache_descriptions
  descriptions_lem kept id name h [] c = refl
  descriptions_lem kept id name h (vd ∷ vds) c =
      descriptions_lem kept id name h vds _
      ∙ ap (last_description id name vds) (add_description_lem kept vd c id name h)

  pub build_cache-signal :
      (kept : ℕ → Bool) (net : Network Double) (id : ℕ) (name : Text)
      → kept id ≡ true
      → cached_signal (build_cache kept net) id name
        ≡ filter (λ av. signal_match av.type id name av) net.attribute_values
  unfolding build_cache find_signal
  build_cache-signal kept net id name h =
      stays kept (λ c. cached_signal c id name) (λ vd c. descriptions-signal kept vd c id name)
        net.value_descriptions _
      ∙ loop_lem kept (λ c. cached_signal c id name) (λ av. signal_match av.type id name av)
          (λ av c. add_signal_lem kept av.type av c id name h) net.attribute_values _

  pub build_cache-message :
      (kept : ℕ → Bool) (net : Network Double) (id : ℕ)
      → kept id ≡ true
      → cached_message (build_cache kept net) id
        ≡ filter (λ av. message_match av.type id av) net.attribute_values
  unfolding build_cache
  build_cache-message kept net id h =
      stays kept (λ c. cached_message c id) (λ vd c. descriptions-message kept vd c id)
        net.value_descriptions _
      ∙ loop_lem kept (λ c. cached_message c id) (λ av. message_match av.type id av)
          (λ av c. add_message_lem kept av.type av c id h) net.attribute_values _

  pub build_cache-node :
      (kept : ℕ → Bool) (net : Network Double) (name : Text)
      → cached_node (build_cache kept net) name
        ≡ filter (λ av. node_match av.type name av) net.attribute_values
  unfolding build_cache
  build_cache-node kept net name =
      stays kept (λ c. cached_node c name) (λ vd c. descriptions-node kept vd c name)
        net.value_descriptions _
      ∙ loop_lem kept (λ c. cached_node c name) (λ av. node_match av.type name av)
          (λ av c. add_node_lem kept av.type av c name) net.attribute_values _

  pub build_cache-network :
      (kept : ℕ → Bool) (net : Network Double)
      → (build_cache kept net).network_attributes
        ≡ filter (λ av. network_match av.type) net.attribute_values
  unfolding build_cache
  build_cache-network kept net =
      stays kept (λ c. c.network_attributes) (λ vd c. descriptions-network kept vd c)
        net.value_descriptions _
      ∙ loop_lem kept (λ c. c.network_attributes) (λ av. network_match av.type)
          (λ av c. add_network_lem kept av.type av c) net.attribute_values _

  pub build_cache-description :
      (kept : ℕ → Bool) (net : Network Double) (id : ℕ) (name : Text)
      → kept id ≡ true
      → cached_description (build_cache kept net) id name
        ≡ last_description id name net.value_descriptions none
  unfolding build_cache find_signal
  build_cache-description kept net id name h =
      descriptions_lem kept id name h net.value_descriptions _
      ∙ ap (last_description id name net.value_descriptions) (
          stays_attributes kept (λ c. cached_description c id name)
            (λ av c. keep_description kept av.type av c id name) net.attribute_values _)
