-- ===== src/Au10/StreamConfig.antt =====
-- au10/stream.go: what Sarama is configured with. A consumer's group is the node's client identifier:
-- within a group, Kafka gives each message to one consumer.
use au10_service.Prelude.{ℕ, ◌≡◌, ◌≢◌, Bool, true, List, [], ◌∷◌, ◌++◌, arith, All}
use au10_service.Text.{Bytes, codes}

pub record StreamConfig : Type 0 where
  pub client_id : Bytes
  pub version : List ℕ
  pub producer_successes : Bool
  pub producer_errors : Bool
  pub consumer_errors : Bool

-- `defaults` is what Sarama's `NewConfig` returns.
abbrev pub new_stream_config : StreamConfig → Bytes → Bytes → StreamConfig
new_stream_config defaults node_type node_name = record defaults {
  client_id = node_type ++ codes "." ++ node_name;
  version = 2 ∷ 3 ∷ 0 ∷ 0 ∷ [];
}

-- What `NewSaramaProducer` and `NewSaramaConsumer` give to Sarama.
abbrev pub producer_config : StreamConfig → Bytes → Bytes → Bool → StreamConfig
producer_config defaults node_type node_name enable_successes =
    record (new_stream_config defaults node_type node_name) {
      producer_successes = enable_successes;
      producer_errors = true;
    }

abbrev pub consumer_config : StreamConfig → Bytes → Bytes → StreamConfig
consumer_config defaults node_type node_name =
    record (new_stream_config defaults node_type node_name) { consumer_errors = true }

abbrev pub consumer_group : StreamConfig → Bytes → Bytes → Bytes
consumer_group defaults node_type node_name =
    (consumer_config defaults node_type node_name).client_id

abbrev HasNoDot : Bytes → Type 0
HasNoDot text = All (λ c. c ≢ b'.') text

-- Nodes whose types have no dot, as the program's have none, share a group only if they have one type
-- and one name.
consumer_group_unique :
    (defaults : StreamConfig) (node_type other_type node_name other_name : Bytes)
    → HasNoDot node_type
    → HasNoDot other_type
    → consumer_group defaults node_type node_name ≡ consumer_group defaults other_type other_name
    → (node_type ≡ other_type) × (node_name ≡ other_name)
consumer_group_unique defaults [] [] node_name other_name plain plain' same = ground (arith, same)
consumer_group_unique defaults [] (c ∷ other_type) node_name other_name plain plain' same =
    ground (arith, same, plain'.0)
consumer_group_unique defaults (c ∷ node_type) [] node_name other_name plain plain' same =
    ground (arith, same, plain.0)
consumer_group_unique defaults (c ∷ node_type) (d ∷ other_type) node_name other_name plain plain'
      same =
    ground (
      arith,
      same,
      consumer_group_unique defaults node_type other_type node_name other_name plain.1 plain'.1,
    )
