-- ===== src/Proto.antt =====
-- proto/sum.proto: the messages that the storage and the services exchange.
use sum.Prelude.{ℕ, ◌^◌, String, Bool, Option, List}

-- A Go slice or map that may be nil is an Option. A float32 is the number of its 32-bit pattern.
pub record Record : Type 0 where
  pub id : ℕ
  pub elems : Option (List ℕ)
  pub shape : Option (List ℕ)
  pub meta : Option (List (String × String))

pub record Oracle : Type 0 where
  pub id : ℕ
  pub name : String
  pub code : String

pub record RecordResponse : Type 0 where
  pub success : Bool
  pub msg : String
  pub stored : Option Record

pub record OracleResponse : Type 0 where
  pub success : Bool
  pub msg : String
  pub oracle : Option Oracle

pub record FindResponse : Type 0 where
  pub success : Bool
  pub msg : String
  pub records : List Record

pub record Call : Type 0 where
  pub oracle_id : ℕ
  pub args : List String

pub record Data (B : Type 0) : Type 0 where
  pub compressed : Bool
  pub payload : B

-- its field `data` is `body`
pub record CallResponse (B : Type 0) : Type 0 where
  pub success : Bool
  pub msg : String
  pub body : Option (Data B)

pub record ServerInfo : Type 0 where
  pub version : String
  pub os : String
  pub arch : String
  pub go_version : String
  pub cpus : ℕ
  pub max_cpus : ℕ
  pub goroutines : ℕ
  pub alloc : ℕ
  pub sys : ℕ
  pub num_gc : ℕ
  pub datapath : String
  pub credspath : String
  pub address : String
  pub uptime : ℕ
  pub pid : ℕ
  pub uid : ℕ
  pub argv : List String
  pub records : ℕ
  pub oracles : ℕ
  pub backend : String
  pub backend_space : ℕ
  pub backend_used : ℕ
  pub next_record_id : ℕ

-- Node
pub record NodeEntry : Type 0 where
  pub id : ℕ
  pub name : String
  pub info : Option ServerInfo

pub record NodeResponse : Type 0 where
  pub success : Bool
  pub msg : String
  pub nodes : List NodeEntry

pub record ListRequest : Type 0 where
  pub page : ℕ
  pub per_page : ℕ

-- RecordListResponse and OracleListResponse
pub record ListResponse (M : Type 0) : Type 0 where
  pub total : ℕ
  pub pages : ℕ
  pub items : List M

abbrev pub uint64_mod : ℕ
uint64_mod = 2 ^ 64
