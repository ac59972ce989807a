-- ===== src/Cli/Session/Total.antt =====
-- The end of the session of cmd/sumcli/main.go, and the terminal at which it has none.
use sum.Prelude.{
  ℕ, zero, suc, ◌<◌, ◌≡◌, ◌∙◌, refl, String, Bool, true, false, Option, none, some, List, [], ◌∷◌,
  arith,
}
use sum.Prelude.Tests.{string_eq}
use sum.Prelude.Lists.{length}
use sum.Cli.Console.{
  Console, Closing, ended, broken, event_of, Ending, returned, failed, exited, panicked, Event,
  line, interrupt, eof, failure, Client, Tools, ◌>>=◌, ◌>>◌, readline, continue_with, pure,
}
use sum.Cli.Console.Soundness.{
  IsSound, IsSoundFrom, is_out_of_range, sound_parts, then-IsSound, pure-IsSound,
}
use sum.Cli.Dispatch.{dispatch}
use sum.Cli.Dispatch.Arity.Expressions.{ToolsLaws, dispatch-IsSound}
use sum.Cli.Session.{reported, run_commands, turn, next_turn, session_loop, after_eval, session}

module _ {W : Type 0} where
  reported-IsSoundFrom :
      (c : Console W) (out : Console W × Ending (Unit {0}))
      → IsSoundFrom c out
      → IsSoundFrom c (reported out)
  unfolding IsSoundFrom reported is_out_of_range
  reported-IsSoundFrom c (c', returned a) h = h
  reported-IsSoundFrom c (c', failed e) h = h
  reported-IsSoundFrom c (c', exited n) h = h
  reported-IsSoundFrom c (c', panicked p) h = h

-- whether the session has come to its end, and without an index out of range
unfoldable pub HasEnded : {W : Type 0} → Option (Console W × Ending (Unit {0})) → Type 0
HasEnded {W} o =
    (out : Console W × Ending (Unit {0})) × (o ≡ some out) × (is_out_of_range out.1 ≡ false)

module _ {W B : Type 0} (tools : Tools B) (client : Client W B) (laws : ToolsLaws tools) where
  run_commands-IsSound : (cmds : List String) → IsSound (run_commands tools client cmds)
  unfolding run_commands
  run_commands-IsSound [] = pure-IsSound tt
  run_commands-IsSound (cmd ∷ rest) =
      then-IsSound
        (record {
          on = λ c.
              reported-IsSoundFrom c (dispatch tools client cmd c)
                ((dispatch-IsSound tools client laws cmd).on c);
        })
        (run_commands-IsSound rest)

  turn-IsSound : (e : Event) → IsSound (turn tools client e)
  unfolding turn
  turn-IsSound (line s) = search (sound_parts, run_commands-IsSound)
  turn-IsSound (interrupt s) = search sound_parts
  turn-IsSound eof = search sound_parts
  turn-IsSound (failure s e) = search (sound_parts, run_commands-IsSound)

  next_turn-HasEnded :
      (more : Console W → Option (Console W × Ending (Unit {0}))) (out : Console W × Ending Bool)
      → is_out_of_range out.1 ≡ false
      → HasEnded (more out.0)
      → HasEnded (next_turn more out)
  unfolding next_turn HasEnded is_out_of_range
  next_turn-HasEnded more (c, returned true) fine h = h
  next_turn-HasEnded more (c, returned false) fine h = ((c, returned tt), refl, refl)
  next_turn-HasEnded more (c, failed e) fine h = ((c, failed e), refl, refl)
  next_turn-HasEnded more (c, exited n) fine h = ((c, exited n), refl, refl)
  next_turn-HasEnded more (c, panicked p) fine h = ((c, panicked p), refl, fine)

  loop-HasEnded :
      (fuel : ℕ) (w : W) (events : List Event) (printed : List String) (closing : Closing)
      → length events < fuel
      → closing ≡ ended
      → HasEnded (
          session_loop tools client fuel
            (record { world = w; input = events; output = printed; closing = closing }))
  unfolding session_loop ◌>>=◌ continue_with readline event_of turn pure HasEnded is_out_of_range
      IsSoundFrom
  loop-HasEnded zero w events printed closing h k = absurd (omega arith)
  loop-HasEnded (suc fuel) w [] printed ended h k = (
    (record { world = w; input = []; output = printed; closing = ended }, returned tt),
    refl,
    refl,
  )
  loop-HasEnded (suc fuel) w [] printed (broken s e) h k = absurd (ground (arith, k))
  loop-HasEnded (suc fuel) w (e ∷ rest) printed closing h k =
      let c : Console W = record { world = w; input = rest; output = printed; closing = closing } in
      let (shorter, fine, same) = (turn-IsSound e).on c in
      let out = turn tools client e c in
      next_turn-HasEnded (session_loop tools client fuel) (turn tools client e c) fine (
        loop-HasEnded fuel out.0.world out.0.input out.0.output out.0.closing (omega arith)
          (same ∙ k))

  after_eval-HasEnded :
      (out : Console W × Ending (Unit {0}))
      → is_out_of_range out.1 ≡ false
      → out.0.closing ≡ ended
      → HasEnded (after_eval tools client out)
  unfolding after_eval HasEnded is_out_of_range
  after_eval-HasEnded (c, returned a) fine k =
      loop-HasEnded (suc (length c.input)) c.world c.input c.output c.closing (omega arith) k
  after_eval-HasEnded (c, failed e) fine k = ((c, failed e), refl, refl)
  after_eval-HasEnded (c, exited n) fine k = ((c, exited n), refl, refl)
  after_eval-HasEnded (c, panicked p) fine k = ((c, panicked p), refl, fine)

  -- On an engine of expressions that counts the groups of those in the table, where each tag of
  -- ServerInfo has a part before its comma, and at a terminal that gives finitely many events and
  -- then io.EOF for ever, the session ends, whatever the events are and the services answer, and
  -- not by an index out of range.
  pub session-HasEnded :
      (eval_string : String) (c : Console W)
      → c.closing ≡ ended
      → HasEnded (session tools client eval_string c)
  unfolding session IsSoundFrom
  session-HasEnded eval_string c k =
      let out = run_commands tools client (tools.split_by eval_string ";") c in
      let (_, fine, same) = (run_commands-IsSound (tools.split_by eval_string ";")).on c in
      after_eval-HasEnded out fine (same ∙ k)

module _ {W B : Type 0} (tools : Tools B) (client : Client W B) where
  -- Where SplitBy of a line that comes with the error gives no command, a terminal that has nothing
  -- left but this error keeps the loop going for ever.
  pub session_loop_broken :
      (s e : String) (fuel : ℕ) (w : W) (printed : List String)
      → tools.split_by s ";" ≡ []
      → session_loop tools client fuel
          (record { world = w; input = []; output = printed; closing = broken s e })
        ≡ none
  unfolding session_loop ◌>>=◌ ◌>>◌ continue_with readline event_of turn pure run_commands next_turn
  session_loop_broken s e zero w printed h = refl
  session_loop_broken s e (suc fuel) w printed h =
      rw (run_commands, h) (session_loop_broken s e fuel w printed h)
