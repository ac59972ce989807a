-- ===== src/Master/Network.antt =====
-- What the master takes from outside the repository: the gRPC clients of its nodes, the scheduler of
-- its goroutines, and its configuration file.
use sum.Prelude.{ℕ, String, Option, List}
use sum.Prelude.Tests.{Result}
use sum.Proto.{
  Record, Oracle, RecordResponse, OracleResponse, FindResponse, ListRequest, ListResponse, Call,
  CallResponse, ServerInfo,
}

-- The answer to a call: an error of the connection, or the response of the node. A call that is
-- cancelled or times out is answered by an error.
abbrev pub Reply : Type 0 → Type 0
Reply A = Result String A

-- NodeConfig and Config of master/config.go
pub record NodeConfig : Type 0 where
  pub address : String
  pub cert_file : String

pub record Config : Type 0 where
  pub nodes : List NodeConfig

-- `W` is the state of everything behind the clients, `B` the bytes of a payload. The first argument
-- of a call is the connection, which stands for the Client and the InternalClient of a node.
pub record Network (W B : Type 0) : Type 1 where
  -- NewClientTLSFromFile, and grpc.Dial with its two clients, with or without the credentials
  pub load_credentials : String → W → Result String String
  pub dial : String → Option String → W → W × Result String ℕ
  pub info : ℕ → W → W × Reply ServerInfo
  pub create_record_with_id : ℕ → Record → W → W × Reply RecordResponse
  pub create_records_with_id : ℕ → List Record → W → W × Reply RecordResponse
  pub update_record : ℕ → Record → W → W × Reply RecordResponse
  pub read_record : ℕ → ℕ → W → W × Reply RecordResponse
  pub list_records : ℕ → ListRequest → W → W × Reply (ListResponse Record)
  pub delete_record : ℕ → ℕ → W → W × Reply RecordResponse
  pub delete_records : ℕ → List ℕ → W → W × Reply RecordResponse
  pub find_records : ℕ → String × String → W → W × Reply FindResponse
  pub create_oracle : ℕ → Oracle → W → W × Reply OracleResponse
  pub read_oracle : ℕ → ℕ → W → W × Reply OracleResponse
  pub delete_oracle : ℕ → ℕ → W → W × Reply OracleResponse
  -- the same on a context that is cancelled already
  pub cancelled_delete_oracle : ℕ → ℕ → W → W × Reply OracleResponse
  pub run : ℕ → Call → W → W × Reply (CallResponse B)
  -- the order in which goroutines that are started together do their work
  pub schedule : {A : Type 0} → List A → W → W × List A
  -- ReadFile, WriteFile, and encoding/json of a Config
  pub read_file : String → W → Result String String
  pub write_file : String → String → W → W × Option String
  pub unmarshal_config : String → Result String Config
  pub marshal_config : Config → Result String String
