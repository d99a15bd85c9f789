-- ===== src/Parser/Comments.antt =====
-- `parseComment`, and what comments and attribute values belong to. A field that the source leaves
-- uninitialised is 0: nothing reads it.
use dbccpp_tiny.Common.{ℕ, []}
use dbccpp_tiny.Objects.{Text}
use dbccpp_tiny.Lexer.Types.{semicolon, bo_, sg_, bu_, cm_}
use dbccpp_tiny.Parser.Result.{Parser, ◌>>=◌, ◌>>◌, pure}
use dbccpp_tiny.Parser.Basic.{skip_token, pass, if_next, unsigned, name_of, text_of}
use dbccpp_tiny.Ast.{Owner, network_owner, node_owner, message_owner, signal_owner, Comment}

-- The owner of a comment or of an attribute value, with its names.
pub record Place : Type 0 where
  pub owner : Owner
  pub node_name : Text
  pub message_id : ℕ
  pub signal_name : Text

unfoldable pub read_message_place : Parser Place
unfolding skip_token unsigned
read_message_place = do
  skip_token
  id ← unsigned "Expected message ID"
  pure (record { owner = message_owner; node_name = []; message_id = id; signal_name = [] })

unfoldable pub read_signal_place : Parser Place
unfolding skip_token unsigned name_of
read_signal_place = do
  skip_token
  id ← unsigned "Expected message ID"
  name ← name_of "Expected signal name"
  pure (record { owner = signal_owner; node_name = []; message_id = id; signal_name = name })

unfoldable pub read_node_place : Parser Place
unfolding skip_token name_of
read_node_place = do
  skip_token
  name ← name_of "Expected node name"
  pure (record { owner = node_owner; node_name = name; message_id = 0; signal_name = [] })

abbrev pub network_place : Place
network_place = record { owner = network_owner; node_name = []; message_id = 0; signal_name = [] }

-- The chain of tests for BO_, SG_ and BU_.
unfoldable pub read_place : Parser Place
unfolding if_next read_message_place read_signal_place read_node_place
read_place =
    if_next bo_ read_message_place
      (if_next sg_ read_signal_place (if_next bu_ read_node_place (pure network_place)))

unfoldable pub parse_comment : Parser Comment
unfolding pass read_place text_of
parse_comment = do
  pass cm_
  place ← read_place
  text ← text_of
  pass semicolon
  pure (record {
    type = place.owner;
    text = text;
    node_name = place.node_name;
    message_id = place.message_id;
    signal_name = place.signal_name;
  })
