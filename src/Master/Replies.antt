-- ===== src/Master/Replies.antt =====
-- master/error_responses.go
use sum.Prelude.{arith, ◌≡◌, refl, String, Bool, true, false, not, none, []}
use sum.Prelude.Tests.{Result, ok, err, if◌then◌else◌}
use sum.Proto.{RecordResponse, OracleResponse, FindResponse, CallResponse, NodeResponse}
use sum.Node.Interpreter.{Ending, returned, panicked, Panic}
use sum.Master.Network.{Reply}

abbrev pub err_record_response : String → RecordResponse
err_record_response m = record { success = false; msg = m; stored = none }

abbrev pub err_find_response : String → FindResponse
err_find_response m = record { success = false; msg = m; records = [] }

abbrev pub err_oracle_response : String → OracleResponse
err_oracle_response m = record { success = false; msg = m; oracle = none }

abbrev pub err_call_response : {B : Type 0} → String → CallResponse B
err_call_response m = record { success = false; msg = m; body = none }

abbrev pub err_node_response : String → NodeResponse
err_node_response m = record { success = false; msg = m; nodes = [] }

-- The messages that getErrorMessage takes.
pub record Response (A : Type 0) : Type 0 where
  pub is_success : A → Bool
  pub message : A → String

instance abbrev pub record_response : Response RecordResponse
record_response = record { is_success = λ r. r.success; message = λ r. r.msg }

instance abbrev pub oracle_response : Response OracleResponse
oracle_response = record { is_success = λ r. r.success; message = λ r. r.msg }

instance abbrev pub call_response : {B : Type 0} → Response (CallResponse B)
call_response = record { is_success = λ r. r.success; message = λ r. r.msg }

instance abbrev pub find_response : Response FindResponse
find_response = record { is_success = λ r. r.success; message = λ r. r.msg }

module _ {A : Type 0} ⦃r : Response A⦄ where
  -- `err != nil || !resp.Success`
  unfoldable pub has_failed : Reply A → Bool
  has_failed (err e) = true
  has_failed (ok a) = not (r.is_success a)

  unfoldable pub get_error_message : Reply A → Ending String
  get_error_message (err e) = returned e
  get_error_message (ok a) =
      if r.is_success a then panicked (Panic.text "no errors dude") else returned (r.message a)

  -- the test of the callers and, where it is met, the message
  unfoldable pub settled : Reply A → Result String A
  settled (err e) = err e
  settled (ok a) = if r.is_success a then ok a else err (r.message a)

  pub get_error_message-settled :
      (reply : Reply A)
      → has_failed reply ≡ true
      → (m : String) × (settled reply ≡ err m) × (get_error_message reply ≡ returned m)
  unfolding has_failed get_error_message settled
  get_error_message-settled (err e) h = (e, refl, refl)
  get_error_message-settled (ok a) h = (r.message a, ground arith, ground arith)
