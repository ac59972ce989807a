-- ===== src/Cli/Console.antt =====
-- What the handlers of cmd/sumcli run in: the terminal, the services behind the connection, and the
-- libraries they call.
pub mod Soundness
pub mod Triples
use sum.Prelude.{ℕ, String, Bool, true, false, Option, none, some, List, [], ◌∷◌, ◌++◌}
use sum.Prelude.Tests.{Result, ok, err, ◌◇◌}
use sum.Prelude.Lists.{get_elem?}
use sum.Proto.{
  Record, Oracle, RecordResponse, OracleResponse, FindResponse, ListRequest, ListResponse, Call,
  CallResponse, ServerInfo, NodeResponse,
}

-- What Readline of the readline package gives: a line, ErrInterrupt with the line so far, io.EOF, or
-- another error with the line that comes with it.
pub data Event : Type 0 where
  line : String → Event
  interrupt : String → Event
  eof : Event
  failure : String → String → Event

-- What Readline gives for ever once the events of a terminal are used up: io.EOF, or another error with
-- the line that comes with it.
pub data Closing : Type 0 where
  ended : Closing
  broken : String → String → Closing

unfoldable pub event_of : Closing → Event
event_of ended = eof
event_of (broken s e) = failure s e

-- `W` is the state behind the connection. A terminal gives finitely many events before its closing.
pub record Console (W : Type 0) : Type 0 where
  pub world : W
  pub input : List Event
  pub output : List String
  pub closing : Closing

pub data Panic : Type 0 where
  index_out_of_range : Panic
  nil_pointer : Panic

-- How a piece of the client ends; `exited` is os.Exit with its code.
pub data Ending (A : Type 0) : Type 0 where
  returned : A → Ending A
  failed : String → Ending A
  exited : ℕ → Ending A
  panicked : Panic → Ending A

abbrev pub Act : Type 0 → Type 0 → Type 0
Act W A = Console W → Console W × Ending A

module _ {W : Type 0} where
  -- what follows where a value is returned; every other ending ends the whole
  unfoldable pub continue_with :
      {A B : Type 0} → (A → Act W B) → Console W × Ending A → Console W × Ending B
  continue_with f (c, returned a) = f a c
  continue_with f (c, failed e) = (c, failed e)
  continue_with f (c, exited n) = (c, exited n)
  continue_with f (c, panicked p) = (c, panicked p)

  infixl 5 ◌>>=◌ ◌>>◌
  unfoldable pub ◌>>=◌ : {A B : Type 0} → Act W A → (A → Act W B) → Act W B
  unfolding continue_with
  ◌>>=◌ m f c = continue_with f (m c)

  unfoldable pub ◌>>◌ : {A B : Type 0} → Act W A → Act W B → Act W B
  unfolding ◌>>=◌
  m >> k = m >>= (λ _. k)

  unfoldable pub pure : {A : Type 0} → A → Act W A
  pure a c = (c, returned a)

  unfoldable pub fail : {A : Type 0} → String → Act W A
  fail e c = (c, failed e)

  unfoldable pub exit : {A : Type 0} → ℕ → Act W A
  exit code c = (c, exited code)

  unfoldable pub print : String → Act W (Unit {0})
  print s c = (record c { output = c.output ++ s ∷ [] }, returned tt)

  -- Readline
  unfoldable pub readline : Act W Event
  unfolding event_of
  readline c = elim c.input [
    | [] ↦ (c, returned (event_of c.closing))
    | e ∷ rest ↦ (record c { input = rest }, returned e)
  ]

  -- `args[i]`
  unfoldable pub arg : List String → ℕ → Act W String
  arg args i c = elim (get_elem? args i) [
    | none ↦ (c, panicked index_out_of_range)
    | some a ↦ (c, returned a)
  ]

  -- a field of what a pointer points to
  unfoldable pub deref : {A : Type 0} → Option A → Act W A
  deref none c = (c, panicked nil_pointer)
  deref (some a) c = (c, returned a)

  -- `if err != nil { return err }` on a value and an error
  unfoldable pub try : {A : Type 0} → Result String A → Act W A
  try (ok a) c = (c, returned a)
  try (err e) c = (c, failed e)

  -- a call to a service, and `if err != nil { return err }`
  unfoldable pub call : {A : Type 0} → (W → W × Result String A) → Act W A
  unfolding try
  call f c = let (w, reply) = f c.world in try reply (record c { world = w })

  -- `else if resp.Success == false { return fmt.Errorf(msg) }`
  unfoldable pub check : Bool → String → Act W (Unit {0})
  check true msg c = (c, returned tt)
  check false msg c = (c, failed msg)

-- SumServiceClient and SumMasterServiceClient; `B` is the type of the bytes of a payload.
pub record Client (W B : Type 0) : Type 0 where
  pub info : W → W × Result String ServerInfo
  pub create_record : Record → W → W × Result String RecordResponse
  pub read_record : ℕ → W → W × Result String RecordResponse
  pub update_record : Record → W → W × Result String RecordResponse
  pub delete_record : ℕ → W → W × Result String RecordResponse
  pub list_records : ListRequest → W → W × Result String (ListResponse Record)
  pub find_records : String × String → W → W × Result String FindResponse
  pub create_oracle : Oracle → W → W × Result String OracleResponse
  pub read_oracle : ℕ → W → W × Result String OracleResponse
  pub update_oracle : Oracle → W → W × Result String OracleResponse
  pub delete_oracle : ℕ → W → W × Result String OracleResponse
  pub find_oracle : String → W → W × Result String OracleResponse
  pub list_oracles : ListRequest → W → W × Result String (ListResponse Oracle)
  pub run : Call → W → W × Result String (CallResponse B)
  pub add_node : String × String → W → W × Result String NodeResponse
  pub list_nodes : W → W × Result String NodeResponse
  pub delete_node : ℕ → W → W × Result String NodeResponse

-- The libraries: str.Comma and str.SplitBy, strconv, fmt, sort, tui.Table, go-humanize, the text of a
-- duration in seconds, strings.EqualFold, ioutil.ReadFile, gzip, and regexp, of which an expression is
-- given by its text.
pub record Tools (B : Type 0) : Type 0 where
  pub comma : String → List String
  pub split_by : String → String → List String
  pub parse_float32 : String → Result String ℕ
  pub parse_uint_error : String → String
  pub format_float : ℕ → String
  pub is_equal32 : ℕ → ℕ → Bool
  pub sort_strings : List String → List String
  pub table : List String → List (List String) → String
  pub bytes : ℕ → String
  pub duration : ℕ → String
  pub equal_fold : String → String → Bool
  pub read_file : String → Result String String
  -- NewReader, and ReadAll of what it gives
  pub new_reader : B → Option B
  pub read_all : B → Result String B
  pub text : B → String
  -- FindStringSubmatch and NumSubexp
  pub find_submatch : String → String → Option (List String)
  pub num_subexp : String → ℕ
