-- ===== src/Convert/Cache/Scan.antt =====
-- What the caches of src/dbcast2network.cpp hold, by a scan of the syntax tree.
use dbccpp_tiny.Common.{
  text_eq, ℕ, Bool, true, false, ◌&&◌, ◌==◌, if◌then◌else◌, List, [], ◌∷◌, ◌++◌, Option, none, some,
  ◌≡◌, refl, ap, arith,
}
use dbccpp_tiny.Objects.{Text}
use dbccpp_tiny.Ast.{
  Owner, network_owner, node_owner, message_owner, signal_owner, AttributeValue, ValueDescription,
}
use dbccpp_tiny.Convert.Cache.{
  Cache, find_signal, add_node, add_message, add_signal, add_description, cache_owned,
}

abbrev pub network_match : Owner → Bool
network_match network_owner = true
network_match _ = false

-- The value descriptions of a signal: the last one that matches, `found` when there is none.
abbrev pub last_description :
    ℕ → Text → List ValueDescription → Option ValueDescription → Option ValueDescription
last_description id name [] found = found
last_description id name (vd ∷ vds) found =
    last_description id name vds
      (if vd.message_id == id && text_eq vd.object_name name then some vd else found)

module _ {Double : Type 0} where
  -- Does the value belong to this signal?
  abbrev pub signal_match : Owner → ℕ → Text → AttributeValue Double → Bool
  signal_match signal_owner id name av = av.message_id == id && text_eq av.signal_name name
  signal_match _ id name av = false

  -- The raw contents of the cache, empty for a missing entry.
  abbrev pub cached_signal : Cache Double → ℕ → Text → List (AttributeValue Double)
  cached_signal cache id name = elim (find_signal cache id name) [
    | none ↦ []
    | some sc ↦ sc.attributes
  ]

  abbrev pub one_if : Bool → AttributeValue Double → List (AttributeValue Double)
  one_if b av = if b then av ∷ [] else []

  pub append_nil : (xs : List (AttributeValue Double)) → xs ≡ xs ++ []
  append_nil [] = refl
  append_nil (x ∷ xs) = ap (x ∷◌) (append_nil xs)

  pub append_one :
      (xs : List (AttributeValue Double)) (b : Bool) (av : AttributeValue Double)
      (ys : List (AttributeValue Double))
      → (xs ++ one_if b av) ++ ys ≡ xs ++ (if b then av ∷ ys else ys)
  append_one [] true av ys = refl
  append_one [] false av ys = refl
  append_one (x ∷ xs) b av ys = ap (x ∷◌) (append_one xs b av ys)

  pub add_signal_lem :
      (kept : ℕ → Bool) (type : Owner) (av : AttributeValue Double) (c : Cache Double) (id : ℕ)
      (name : Text)
      → kept id ≡ true
      → cached_signal (cache_owned kept type av c) id name
        ≡ cached_signal c id name ++ one_if (signal_match type id name av) av
  unfolding cache_owned add_node add_message add_signal find_signal
  add_signal_lem kept network_owner av c id name h = append_nil _
  add_signal_lem kept node_owner av c id name h = append_nil _
  add_signal_lem kept message_owner av c id name h =
      ground (arith, append_nil (cached_signal c id name))
  add_signal_lem kept signal_owner av c id name h =
      ground (arith, append_nil (cached_signal c id name))

  abbrev pub message_match : Owner → ℕ → AttributeValue Double → Bool
  message_match message_owner id av = av.message_id == id
  message_match _ id av = false

  abbrev pub node_match : Owner → Text → AttributeValue Double → Bool
  node_match node_owner name av = text_eq av.node_name name
  node_match _ name av = false

  abbrev pub cached_message : Cache Double → ℕ → List (AttributeValue Double)
  cached_message cache id = elim (cache.messages id) [ none ↦ [] | some mc ↦ mc.attributes ]

  abbrev pub cached_node : Cache Double → Text → List (AttributeValue Double)
  cached_node cache name = elim (cache.nodes name) [ none ↦ [] | some nc ↦ nc.attributes ]

  pub add_message_lem :
      (kept : ℕ → Bool) (type : Owner) (av : AttributeValue Double) (c : Cache Double) (id : ℕ)
      → kept id ≡ true
      → cached_message (cache_owned kept type av c) id
        ≡ cached_message c id ++ one_if (message_match type id av) av
  unfolding cache_owned add_node add_message add_signal
  add_message_lem kept network_owner av c id h = append_nil _
  add_message_lem kept node_owner av c id h = append_nil _
  add_message_lem kept message_owner av c id h = ground (arith, append_nil (cached_message c id))
  add_message_lem kept signal_owner av c id h = ground (arith, append_nil (cached_message c id))

  pub add_node_lem :
      (kept : ℕ → Bool) (type : Owner) (av : AttributeValue Double) (c : Cache Double) (name : Text)
      → cached_node (cache_owned kept type av c) name
        ≡ cached_node c name ++ one_if (node_match type name av) av
  unfolding cache_owned add_node add_message add_signal
  add_node_lem kept network_owner av c name = append_nil _
  add_node_lem kept node_owner av c name = ground (arith, append_nil (cached_node c name))
  add_node_lem kept message_owner av c name = ground (arith, append_nil (cached_node c name))
  add_node_lem kept signal_owner av c name = ground (arith, append_nil (cached_node c name))

  pub add_network_lem :
      (kept : ℕ → Bool) (type : Owner) (av : AttributeValue Double) (c : Cache Double)
      → (cache_owned kept type av c).network_attributes
        ≡ c.network_attributes ++ one_if (network_match type) av
  unfolding cache_owned add_node add_message add_signal
  add_network_lem kept network_owner av c = refl
  add_network_lem kept node_owner av c = append_nil _
  add_network_lem kept message_owner av c = ground (arith, append_nil c.network_attributes)
  add_network_lem kept signal_owner av c = ground (arith, append_nil c.network_attributes)

  abbrev pub cached_description : Cache Double → ℕ → Text → Option ValueDescription
  cached_description cache id name = elim (find_signal cache id name) [
    | none ↦ none
    | some sc ↦ sc.value_descriptions
  ]

  pub keep_description :
      (kept : ℕ → Bool) (type : Owner) (av : AttributeValue Double) (c : Cache Double) (id : ℕ)
      (name : Text)
      → cached_description (cache_owned kept type av c) id name ≡ cached_description c id name
  unfolding cache_owned add_node add_message add_signal find_signal
  keep_description kept network_owner av c id name = refl
  keep_description kept node_owner av c id name = refl
  keep_description kept message_owner av c id name = ground arith
  keep_description kept signal_owner av c id name = ground arith

  pub add_description_lem :
      (kept : ℕ → Bool) (vd : ValueDescription) (c : Cache Double) (id : ℕ) (name : Text)
      → kept id ≡ true
      → cached_description (if kept vd.message_id then add_description vd c else c) id name ≡ (
          if vd.message_id == id && text_eq vd.object_name name
          then some vd
          else cached_description c id name)
  unfolding add_description find_signal
  add_description_lem kept vd c id name h = ground arith

  -- The second loop leaves the attributes alone.
  pub descriptions-signal :
      (kept : ℕ → Bool) (vd : ValueDescription) (c : Cache Double) (id : ℕ) (name : Text)
      → cached_signal (if kept vd.message_id then add_description vd c else c) id name
        ≡ cached_signal c id name
  unfolding add_description find_signal
  descriptions-signal kept vd c id name = ground arith

  pub descriptions-message :
      (kept : ℕ → Bool) (vd : ValueDescription) (c : Cache Double) (id : ℕ)
      → cached_message (if kept vd.message_id then add_description vd c else c) id
        ≡ cached_message c id
  unfolding add_description
  descriptions-message kept vd c id = ground arith

  pub descriptions-node :
      (kept : ℕ → Bool) (vd : ValueDescription) (c : Cache Double) (name : Text)
      → cached_node (if kept vd.message_id then add_description vd c else c) name
        ≡ cached_node c name
  unfolding add_description
  descriptions-node kept vd c name = ground arith

  pub descriptions-network :
      (kept : ℕ → Bool) (vd : ValueDescription) (c : Cache Double)
      → (if kept vd.message_id then add_description vd c else c).network_attributes
        ≡ c.network_attributes
  unfolding add_description
  descriptions-network kept vd c = ground arith
