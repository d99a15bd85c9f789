-- ===== src/Convert/Scanned.antt =====
-- The functions of src/dbcast2network.cpp that read the caches find what a scan of the syntax tree
-- finds.
use dbccpp_tiny.Common.{
  text_eq, ℕ, Bool, true, ◌&&◌, Bool-cases, List, [], ◌∷◌, map, Option, none, some, filter, inl,
  inr, ◌≡◌, refl, ap, ◌∙◌, arith,
}
use dbccpp_tiny.Objects.{Text, Attribute, network, node, message, signal, ValueEncodingDescription}
use dbccpp_tiny.Ast.{AttributeValue, Network, ValueDescription}
use dbccpp_tiny.Convert.Cache.{Cache, build_cache}
use dbccpp_tiny.Convert.Cache.Scan.{
  signal_match, message_match, node_match, network_match, last_description, cached_signal,
  cached_message, cached_node, cached_description,
}
use dbccpp_tiny.Convert.Cache.Built.{
  build_cache-signal, build_cache-message, build_cache-node, build_cache-network,
  build_cache-description,
}
use dbccpp_tiny.Convert.Objects.{
  attribute, owned_by_network, owned_by_node, owned_by_message, owned_by_signal, copy_descriptions,
  node_attributes, network_attributes,
}
use dbccpp_tiny.Convert.Signals.{signal_attributes, value_descriptions}
use dbccpp_tiny.Convert.Messages.{message_attributes}

module _ {A : Type 0} where
  -- A test that the kept elements all pass keeps them all.
  filter-filter :
      (p q : A → Bool)
      → ((x : A) → p x ≡ true → q x ≡ true)
      → (xs : List A) → filter q (filter p xs) ≡ filter p xs
  filter-filter p q h [] = refl
  filter-filter p q h (x ∷ xs) = elim (Bool-cases (p x)) [
    | inl e ↦ ground (arith, e, h x e, filter-filter p q h xs)
    | inr e ↦ ground (arith, e, filter-filter p q h xs)
  ]

module _ {Double : Type 0} where
  signal_owned :
      (id : ℕ) (name : Text) (av : AttributeValue Double)
      → signal_match av.type id name av ≡ true
      → owned_by_signal av ≡ true
  signal_owned id name av h = ground arith

  message_owned :
      (id : ℕ) (av : AttributeValue Double)
      → message_match av.type id av ≡ true
      → owned_by_message av ≡ true
  message_owned id av h = ground arith

  node_owned :
      (name : Text) (av : AttributeValue Double)
      → node_match av.type name av ≡ true
      → (owned_by_node av && text_eq av.node_name name) ≡ true
  node_owned name av h = ground arith

  network_owned :
      (av : AttributeValue Double) → network_match av.type ≡ true → owned_by_network av ≡ true
  network_owned av h = ground arith

  -- The values of the syntax tree that belong to a signal, a message, a node and the network, in
  -- their order.
  unfoldable pub signal_scan : Network Double → ℕ → Text → List (Attribute Double)
  signal_scan net id name =
      map (attribute signal) (filter (λ av. signal_match av.type id name av) net.attribute_values)

  unfoldable pub message_scan : Network Double → ℕ → List (Attribute Double)
  message_scan net id =
      map (attribute message) (filter (λ av. message_match av.type id av) net.attribute_values)

  unfoldable pub node_scan : Network Double → Text → List (Attribute Double)
  node_scan net name =
      map (attribute node) (filter (λ av. node_match av.type name av) net.attribute_values)

  unfoldable pub network_scan : Network Double → List (Attribute Double)
  network_scan net =
      map (attribute network) (filter (λ av. network_match av.type) net.attribute_values)

  -- The descriptions of the last entry for this message and this name, if there is one.
  unfoldable pub description_scan : Network Double → ℕ → Text → List ValueEncodingDescription
  description_scan net id name = elim (last_description id name net.value_descriptions none) [
    | none ↦ []
    | some vd ↦ copy_descriptions vd.descriptions
  ]

  signal_attributes_lem :
      (c : Cache Double) (id : ℕ) (name : Text)
      → signal_attributes c id name
        ≡ map (attribute signal) (filter owned_by_signal (cached_signal c id name))
  unfolding signal_attributes
  signal_attributes_lem c id name = ground arith

  message_attributes_lem :
      (c : Cache Double) (id : ℕ)
      → message_attributes c id
        ≡ map (attribute message) (filter owned_by_message (cached_message c id))
  unfolding message_attributes
  message_attributes_lem c id = ground arith

  node_attributes_lem :
      (c : Cache Double) (name : Text)
      → node_attributes c name
        ≡ map
            (attribute node)
            (filter (λ av. owned_by_node av && text_eq av.node_name name) (cached_node c name))
  unfolding node_attributes
  node_attributes_lem c name = ground arith

  value_descriptions_lem :
      (c : Cache Double) (id : ℕ) (name : Text)
      → value_descriptions c id name ≡ (elim (cached_description c id name) [
        | none ↦ []
        | some vd ↦ copy_descriptions vd.descriptions
      ])
  unfolding value_descriptions
  value_descriptions_lem c id name = ground arith

  -- The attributes of a signal that are read from the cache are the values of the syntax tree for
  -- its message and its name, in their order, when the message's identifier is cached.
  pub signal_attributes-eq-scan :
      (kept : ℕ → Bool) (net : Network Double) (id : ℕ) (name : Text)
      → kept id ≡ true
      → signal_attributes (build_cache kept net) id name ≡ signal_scan net id name
  unfolding signal_scan
  signal_attributes-eq-scan kept net id name h =
      signal_attributes_lem (build_cache kept net) id name
      ∙ ap (λ xs. map (attribute signal) (filter owned_by_signal xs))
          (build_cache-signal kept net id name h)
      ∙ ap (map (attribute signal)) (filter-filter _ _ (signal_owned id name) net.attribute_values)

  -- The attributes of a message that are read from the cache are the values of the syntax tree for
  -- its identifier, in their order, when the identifier is cached.
  pub message_attributes-eq-scan :
      (kept : ℕ → Bool) (net : Network Double) (id : ℕ)
      → kept id ≡ true
      → message_attributes (build_cache kept net) id ≡ message_scan net id
  unfolding message_scan
  message_attributes-eq-scan kept net id h =
      message_attributes_lem (build_cache kept net) id
      ∙ ap (λ xs. map (attribute message) (filter owned_by_message xs))
          (build_cache-message kept net id h)
      ∙ ap (map (attribute message)) (filter-filter _ _ (message_owned id) net.attribute_values)

  -- The attributes of a node that are read from the cache are the values of the syntax tree for
  -- its name, in their order.
  pub node_attributes-eq-scan :
      (kept : ℕ → Bool) (net : Network Double) (name : Text)
      → node_attributes (build_cache kept net) name ≡ node_scan net name
  unfolding node_scan
  node_attributes-eq-scan kept net name =
      node_attributes_lem (build_cache kept net) name
      ∙ ap
          (λ xs.
            map (attribute node) (filter (λ av. owned_by_node av && text_eq av.node_name name) xs))
          (build_cache-node kept net name)
      ∙ ap (map (attribute node)) (filter-filter _ _ (node_owned name) net.attribute_values)

  pub network_attributes-eq-scan :
      (kept : ℕ → Bool) (net : Network Double)
      → network_attributes (build_cache kept net) ≡ network_scan net
  unfolding network_scan network_attributes
  network_attributes-eq-scan kept net =
      ap (λ xs. map (attribute network) (filter owned_by_network xs)) (build_cache-network kept net)
      ∙ ap (map (attribute network)) (filter-filter _ _ network_owned net.attribute_values)

  -- The value descriptions of a signal that are read from the cache are those of the last entry
  -- of the syntax tree for its message and its name, when the message's identifier is cached.
  pub value_descriptions-eq-scan :
      (kept : ℕ → Bool) (net : Network Double) (id : ℕ) (name : Text)
      → kept id ≡ true
      → value_descriptions (build_cache kept net) id name ≡ description_scan net id name
  unfolding description_scan
  value_descriptions-eq-scan kept net id name h =
      value_descriptions_lem (build_cache kept net) id name
      ∙ ap
          (λ (o : Option ValueDescription). elim o [
            | none ↦ []
            | some vd ↦ copy_descriptions vd.descriptions
          ])
          (build_cache-description kept net id name h)
