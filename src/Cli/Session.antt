-- ===== src/Cli/Session.antt =====
-- The session of cmd/sumcli/main.go, after the connection is made.
pub mod Total
use sum.Prelude.{ℕ, zero, suc, ◌+◌, String, Bool, true, false, Option, none, some, List, [], ◌∷◌}
use sum.Prelude.Tests.{ok, err, string_eq, ◌==◌, ◌◇◌, if◌then◌else◌}
use sum.Prelude.Lists.{length}
use sum.Cli.Console.{
  Act, Console, Ending, returned, failed, exited, panicked, Event, line, interrupt, eof, failure,
  Client, Tools, ◌>>=◌, ◌>>◌, pure, print, readline,
}
use sum.Cli.Dispatch.{dispatch}

module _ {W : Type 0} where
  -- `if err := ...; err != nil { fmt.Printf("%s\\n", err) }`
  unfoldable pub reported : Console W × Ending (Unit {0}) → Console W × Ending (Unit {0})
  unfolding print
  reported (c, returned a) = (c, returned a)
  reported (c, failed e) = print (e ◇ "\n") c
  reported (c, exited n) = (c, exited n)
  reported (c, panicked p) = (c, panicked p)

  -- what follows a turn
  unfoldable pub next_turn :
      (Console W → Option (Console W × Ending (Unit {0})))
      → Console W × Ending Bool
      → Option (Console W × Ending (Unit {0}))
  next_turn more (c, returned true) = more c
  next_turn more (c, returned false) = some (c, returned tt)
  next_turn more (c, failed e) = some (c, failed e)
  next_turn more (c, exited n) = some (c, exited n)
  next_turn more (c, panicked p) = some (c, panicked p)

module _ {W B : Type 0} (tools : Tools B) (client : Client W B) where
  -- the commands of a line, one after the other
  unfoldable pub run_commands : List String → Act W (Unit {0})
  unfolding ◌>>◌ pure reported dispatch
  run_commands [] = pure tt
  run_commands (cmd ∷ rest) = (λ c. reported (dispatch tools client cmd c)) >> run_commands rest

  -- a turn of the loop: whether it goes on
  unfoldable pub turn : Event → Act W Bool
  unfolding ◌>>◌ pure run_commands
  turn (line s) = do run_commands (tools.split_by s ";"); pure true
  turn (interrupt s) = pure (if s == "" then false else true)
  turn eof = pure false
  -- any other error is not looked at
  turn (failure s e) = do run_commands (tools.split_by s ";"); pure true

  -- The loop that reads from the terminal; `none` where the fuel does not last. A turn takes an event, and
  -- io.EOF ends the loop; where the terminal keeps failing with another error it goes on for ever, and
  -- no fuel lasts.
  unfoldable pub session_loop : ℕ → Console W → Option (Console W × Ending (Unit {0}))
  unfolding next_turn ◌>>=◌ readline turn
  session_loop zero c = none
  session_loop (suc fuel) c = next_turn (session_loop fuel) ((readline >>= turn) c)

  -- after the commands of `-eval`
  unfoldable pub after_eval : Console W × Ending (Unit {0}) → Option (Console W × Ending (Unit {0}))
  unfolding session_loop
  after_eval (c, returned a) = session_loop (suc (length c.input)) c
  after_eval (c, failed e) = some (c, failed e)
  after_eval (c, exited n) = some (c, exited n)
  after_eval (c, panicked p) = some (c, panicked p)

  unfoldable pub session : String → Console W → Option (Console W × Ending (Unit {0}))
  unfolding after_eval run_commands
  session eval_string c = after_eval (run_commands (tools.split_by eval_string ";") c)
