-- ===== src/Convert/Cache.antt =====
-- The caches of src/dbcast2network.cpp and the loops that build them. An `unordered_map` is a
-- function into `Option`, and a pointer into the syntax tree is the node itself.
pub mod Scan
pub mod Built
use dbccpp_tiny.Common.{
  text_eq, ℕ, Bool, true, false, ◌%◌, ◌^◌, ◌&&◌, ◌==◌, if◌then◌else◌, List, [], ◌∷◌, ◌++◌, Option,
  none, some, ◌>>=◌,
}
use dbccpp_tiny.Objects.{Text}
use dbccpp_tiny.Ast.{
  Owner, network_owner, node_owner, message_owner, signal_owner, AttributeValue, ValueDescription,
  Message, Network,
}

abbrev pub or_default {ℓ} : {A : Type ℓ} → A → Option A → A
or_default d none = d
or_default d (some a) = a

-- `m[k]`, changed by `f`: a missing entry is default-constructed first.
abbrev pub alter {ℓ κ} :
    {K : Type ℓ} {V : Type κ} → (K → K → Bool) → V → K → (V → V) → (K → Option V) → (K → Option V)
alter eq d k f m = λ j. if eq k j then some (f (or_default d (m j))) else m j

pub record SignalCache (Double : Type 0) : Type 0 where
  pub attributes : List (AttributeValue Double)
  pub value_descriptions : Option ValueDescription

pub record MessageCache (Double : Type 0) : Type 0 where
  pub signals : Text → Option (SignalCache Double)
  pub attributes : List (AttributeValue Double)

pub record NodeCache (Double : Type 0) : Type 0 where
  pub attributes : List (AttributeValue Double)

pub record Cache (Double : Type 0) : Type 0 where
  pub network_attributes : List (AttributeValue Double)
  pub nodes : Text → Option (NodeCache Double)
  pub messages : ℕ → Option (MessageCache Double)

-- `DBCAST2Network` caches all.
abbrev pub keep_all : ℕ → Bool
keep_all id = true

module _ {Double : Type 0} where
  abbrev pub empty_signal : SignalCache Double
  empty_signal = record { attributes = []; value_descriptions = none }

  abbrev pub empty_message : MessageCache Double
  empty_message = record { signals = λ name. none; attributes = [] }

  abbrev pub empty_node : NodeCache Double
  empty_node = record { attributes = [] }

  abbrev pub empty_cache : Cache Double
  empty_cache = record { network_attributes = []; nodes = λ name. none; messages = λ id. none }

  -- `cache.Nodes[name].Attributes.emplace_back(&av)`
  unfoldable pub add_node : AttributeValue Double → Cache Double → Cache Double
  add_node av cache = record cache {
    nodes =
        alter text_eq empty_node av.node_name
          (λ nc. record nc { attributes = nc.attributes ++ (av ∷ []) }) cache.nodes;
  }

  -- `cache.Messages[id].Attributes.emplace_back(&av)`
  unfoldable pub add_message : AttributeValue Double → Cache Double → Cache Double
  add_message av cache = record cache {
    messages =
        alter (◌==◌) empty_message av.message_id
          (λ mc. record mc { attributes = mc.attributes ++ (av ∷ []) }) cache.messages;
  }

  -- A change of `cache.Messages[id].Signals[name]`.
  abbrev pub change_signal :
      ℕ → Text → (SignalCache Double → SignalCache Double) → Cache Double → Cache Double
  change_signal id name f cache = record cache {
    messages =
        alter (◌==◌) empty_message id
          (λ mc. record mc { signals = alter text_eq empty_signal name f mc.signals })
          cache.messages;
  }

  -- `cache.Messages[id].Signals[name].Attributes.emplace_back(&av)`
  unfoldable pub add_signal : AttributeValue Double → Cache Double → Cache Double
  add_signal av =
      change_signal av.message_id av.signal_name
        (λ sc. record sc { attributes = sc.attributes ++ (av ∷ []) })

  -- `cache.Messages[id].Signals[name].ValueDescriptions = &vd`
  unfoldable pub add_description : ValueDescription → Cache Double → Cache Double
  add_description vd =
      change_signal vd.message_id vd.object_name (λ sc. record sc { value_descriptions = some vd })

  -- The switch of the first loop. `kept` tells whether the attribute of a message or signal is
  -- cached at all.
  unfoldable pub cache_owned :
      (ℕ → Bool) → Owner → AttributeValue Double → Cache Double → Cache Double
  unfolding add_node add_message add_signal
  cache_owned kept network_owner av cache = record cache {
    network_attributes = cache.network_attributes ++ (av ∷ []);
  }
  cache_owned kept node_owner av cache = add_node av cache
  cache_owned kept message_owner av cache =
      if kept av.message_id then add_message av cache else cache
  cache_owned kept signal_owner av cache = if kept av.message_id then add_signal av cache else cache

  abbrev pub cache_attribute : (ℕ → Bool) → AttributeValue Double → Cache Double → Cache Double
  cache_attribute kept av cache = cache_owned kept av.type av cache

  unfoldable pub cache_attributes :
      (ℕ → Bool) → List (AttributeValue Double) → Cache Double → Cache Double
  unfolding cache_owned
  cache_attributes kept [] cache = cache
  cache_attributes kept (av ∷ avs) cache = cache_attributes kept avs (cache_attribute kept av cache)

  unfoldable pub cache_descriptions :
      (ℕ → Bool) → List ValueDescription → Cache Double → Cache Double
  unfolding add_description
  cache_descriptions kept [] cache = cache
  cache_descriptions kept (vd ∷ vds) cache =
      cache_descriptions kept vds (if kept vd.message_id then add_description vd cache else cache)

  -- Both loops, on the empty cache.
  unfoldable pub build_cache : (ℕ → Bool) → Network Double → Cache Double
  unfolding cache_attributes cache_descriptions
  build_cache kept net =
      cache_descriptions kept net.value_descriptions
        (cache_attributes kept net.attribute_values empty_cache)

  -- The inner loop of `DBCAST2NetworkFiltered`: is there a message of this identifier that the
  -- filter keeps? The filter takes a `uint32_t`.
  unfoldable pub is_kept : (ℕ → Text → Bool) → List (Message Double) → ℕ → Bool
  is_kept message_filter [] id = false
  is_kept message_filter (m ∷ ms) id =
      if m.id == id && message_filter (m.id % 2 ^ 32) m.name
      then true
      else is_kept message_filter ms id

  -- `cache.Messages.find(id)->second.Signals.find(name)`, `none` for both ends.
  unfoldable pub find_signal : Cache Double → ℕ → Text → Option (SignalCache Double)
  find_signal cache id name = do mc ← cache.messages id; mc.signals name
