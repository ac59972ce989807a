-- ===== src/Wrapper/Context.antt =====
-- node/wrapper/context.go: the error state of one run.
use sum.Prelude.{String, Bool, true, false}

pub record Context : Type 0 where
  pub message : String
  pub is_error : Bool

abbrev pub new_context : Context
new_context = record { message = ""; is_error = false }

unfoldable pub error : String → Context → Context
error msg ctx = record { message = msg; is_error = true }

unfoldable pub reset : Context → Context
reset ctx = record { message = ""; is_error = false }
