-- ===== src/Cli/Dispatch/Arity/Expressions.antt =====
-- Dispatch of cmd/sumcli/handlers/handlers.go for every engine of regular expressions that counts
-- the groups of the expressions in the table as they are written.
use Prim.Native.Char.{code}
use sum.Prelude.{
  ℕ, suc, ◌+◌, ◌<◌, ◌≡◌, refl, inl, inr, String, Bool, true, false, not, ◌&&◌, ◌||◌, none, some,
  List, [], ◌∷◌, arith,
}
use sum.Prelude.Tests.{nat_eq, string_eq, ◌==◌, ◌◇◌, Bool-cases, Option-cases, if◌then◌else◌}
use sum.Prelude.Lists.{length, All, drop, length-drop, contains}
use sum.Cli.Console.{Act, Client, Tools, exit}
use sum.Cli.Console.Soundness.{
  IsSound, sound_parts, bind-IsSound, arg-IsSound, fail-IsSound, call-IsSound, pure-IsSound,
  print-IsSound,
}
use sum.Proto.{ServerInfo}
use sum.Cli.Commands.{Command, commands}
use sum.Cli.Info.{Value, tos, info, info_rows, info_fields, help}
use sum.Cli.Dispatch.{
  Handler, Match, run_match, handlers, match_command, unmatched, by_name, by_parser, run_callback,
  dispatch_from, dispatch,
}
use sum.Cli.Dispatch.Arity.{
  create_record-IsSound, read_record-IsSound, update_record-IsSound, delete_record-IsSound,
  list_records-IsSound, find_record-IsSound, create_oracle-IsSound, read_oracle-IsSound,
  update_oracle-IsSound, delete_oracle-IsSound, find_oracle-IsSound, list_oracles-IsSound,
  call_oracle-IsSound, create_node-IsSound, list_nodes-IsSound, delete_node-IsSound,
}

-- the capturing groups of an expression from a place on, after a backslash and after an opening
-- bracket or not: the brackets that are neither escaped nor those of a flag
groups_from : (escaped opened : Bool) → String → ℕ
groups_from escaped opened String.[] = if opened then 1 else 0
groups_from true opened (String.◌∷◌ c s) = groups_from false false s
groups_from false opened (String.◌∷◌ c s) =
    (if opened && not (code c == 63) then 1 else 0) + groups_from (code c == 92) (code c == 40) s

unfoldable pub groups : String → ℕ
unfolding groups_from
groups p = groups_from false false p

-- the expressions of the table
unfoldable pub expressions : List Command → List String
expressions [] = []
expressions (h ∷ rest) = elim h.parser [ none ↦ expressions rest | some p ↦ p ∷ expressions rest ]

-- What the client relies on: NumSubexp is the number of the groups of each expression in the table, and
-- the tag of a field of ServerInfo has a part before its comma.
pub record ToolsLaws {B : Type 0} (tools : Tools B) : Type 0 where
  pub num_subexp-groups :
      (p : String) → contains p (expressions commands) ≡ true → tools.num_subexp p ≡ groups p
  pub comma-tag : (i : ServerInfo) → All (λ f. 0 < length (tools.comma f.0)) (info_fields i)

-- the rows of the table, one after the other
infixr 4 ◌⨟◌
◌⨟◌ : {A B : Type 0} → A → B → A × B
a ⨟ b = (a, b)

module _ {W B : Type 0} (tools : Tools B) where
  -- the callback of a handler does with the arguments that its expression gives it, and without any
  -- where it has none
  unfoldable pub Fits : Handler W → Type 0
  Fits h = elim h.command.parser [
    | none ↦ (cmd : String) → IsSound (run_callback h.callback cmd [])
    | some p ↦
        (contains p (expressions commands) ≡ true)
        × (0 < groups p)
        × ((cmd : String) (args : List String)
            → suc (length args) ≡ groups p
            → IsSound (run_callback h.callback cmd args))
  ]

  -- what a match asks of a handler
  Allowed : Handler W → String → Match → Type 0
  Allowed h cmd unmatched = Unit
  Allowed h cmd by_name = IsSound (run_callback h.callback cmd [])
  Allowed h cmd (by_parser result) =
      (1 < length result)
      × ((first : String) → IsSound (run_callback h.callback first (drop 2 result)))

  match_command-Allowed :
      ToolsLaws tools
      → (h : Handler W) (cmd : String) → Fits h
      → Allowed h cmd (match_command tools h.command cmd)
  unfolding Allowed Fits match_command
  match_command-Allowed laws h cmd fits = elim (Option-cases h.command.parser) [
    | inl e ↦
        let alone = rw (Fits, e) at fits in
        rw (match_command, e)
          (elim (Bool-cases (tools.equal_fold h.command.name cmd)) [
            | inl b ↦ rw (b) (alone cmd)
            | inr b ↦ rw (b) tt
          ])
    | inr (p, e) ↦
        let (listed, some_group, with_args) = rw (Fits, e) at fits in
        rw (match_command, e)
          (elim (Option-cases (tools.find_submatch p cmd)) [
            | inl o ↦ rw (o) tt
            | inr (result, o) ↦
                rw (o) (elim (Bool-cases (length result == suc (tools.num_subexp p))) [
                  | inl b ↦
                      let long = (nat_eq.means_eq (length result) (suc (tools.num_subexp p))).0 b in
                      let count = laws.num_subexp-groups p listed in
                      rw (b) (
                        omega arith,
                        λ first.
                            with_args first (drop 2 result) (omega (arith, length-drop 2 result)),
                      )
                  | inr b ↦ rw (b) tt
                ])
          ])
  ]

  run_match-IsSound :
      (h : Handler W) (cmd : String) (later : Act W (Unit {0})) (m : Match)
      → IsSound later
      → Allowed h cmd m
      → IsSound (run_match h cmd later m)
  unfolding run_match Allowed
  run_match-IsSound h cmd later unmatched rest fine = rest
  run_match-IsSound h cmd later by_name rest fine = fine
  run_match-IsSound h cmd later (by_parser result) rest (long, fine) =
      bind-IsSound (arg-IsSound result 1 long) fine

  info_rows-IsSound :
      (fields : List (String × Value))
      → All (λ f. 0 < length (tools.comma f.0)) fields
      → IsSound (info_rows {W = W} tools fields)
  unfolding info_rows
  info_rows-IsSound [] h = search sound_parts
  info_rows-IsSound ((tag, v) ∷ rest) (here, later) =
      bind-IsSound (arg-IsSound (tools.comma tag) 0 here) (λ name.
        bind-IsSound (info_rows-IsSound rest later) (λ rows.
          pure-IsSound (if name == "" || name == "-" then rows else (name ∷ tos v ∷ []) ∷ rows)))

module _ {W B : Type 0} (tools : Tools B) (client : Client W B) (laws : ToolsLaws tools) where
  info-IsSound : IsSound (info tools client)
  unfolding info
  info-IsSound = bind-IsSound (call-IsSound client.info) (λ i.
      bind-IsSound (info_rows-IsSound tools (info_fields i) (laws.comma-tag i))
        (λ rows. print-IsSound (tools.table ("name" ∷ "value" ∷ []) rows)))

  help-IsSound : IsSound (help {W = W} tools)
  unfolding help
  help-IsSound = search sound_parts

  quit-IsSound : IsSound (exit {W = W} {A = Unit} 0)
  quit-IsSound = search sound_parts

  handlers-Fits : All (Fits tools) (handlers tools client)
  unfolding handlers Fits run_callback contains expressions groups
  handlers-Fits =
      (λ cmd. help-IsSound)
      ⨟ (refl, omega arith, λ cmd args e. quit-IsSound)
      ⨟ (λ cmd. info-IsSound)
      ⨟ (refl, omega arith, λ cmd args e. create_record-IsSound tools client)
      ⨟ (refl, omega arith, λ cmd args e. read_record-IsSound tools client args (omega arith))
      ⨟ (refl, omega arith, λ cmd args e. update_record-IsSound tools client args (omega arith))
      ⨟ (refl, omega arith, λ cmd args e. delete_record-IsSound tools client args (omega arith))
      ⨟ (refl, omega arith, λ cmd args e. list_records-IsSound tools client args (omega arith))
      ⨟ (refl, omega arith, λ cmd args e. find_record-IsSound tools client args (omega arith))
      ⨟ (refl, omega arith, λ cmd args e. create_oracle-IsSound tools client args (omega arith))
      ⨟ (refl, omega arith, λ cmd args e. read_oracle-IsSound tools client args (omega arith))
      ⨟ (refl, omega arith, λ cmd args e. update_oracle-IsSound tools client args (omega arith))
      ⨟ (refl, omega arith, λ cmd args e. delete_oracle-IsSound tools client args (omega arith))
      ⨟ (refl, omega arith, λ cmd args e. find_oracle-IsSound tools client args (omega arith))
      ⨟ (refl, omega arith, λ cmd args e. list_oracles-IsSound tools client args (omega arith))
      ⨟ (refl, omega arith, λ cmd args e. call_oracle-IsSound tools client cmd args (omega arith))
      ⨟ (refl, omega arith, λ cmd args e. create_node-IsSound tools client args (omega arith))
      ⨟ (λ cmd. list_nodes-IsSound tools client)
      ⨟ (refl, omega arith, λ cmd args e. delete_node-IsSound tools client args (omega arith))
      ⨟ tt

  dispatch_from-IsSound :
      (hs : List (Handler W)) (cmd : String)
      → All (Fits tools) hs
      → IsSound (dispatch_from tools hs cmd)
  unfolding dispatch_from
  dispatch_from-IsSound [] cmd h = fail-IsSound ("command not found: " ◇ cmd)
  dispatch_from-IsSound (h ∷ rest) cmd (fits, later) =
      run_match-IsSound tools h cmd (dispatch_from tools rest cmd)
        (match_command tools h.command cmd) (dispatch_from-IsSound rest cmd later)
        (match_command-Allowed tools laws h cmd fits)

  -- On an engine of expressions that counts the groups of those in the table, and where each tag
  -- of ServerInfo has a part before its comma, Dispatch of any command ends with no index out of
  -- range, and leaves at most the input that there was, before the same closing of the terminal.
  pub dispatch-IsSound : (cmd : String) → IsSound (dispatch tools client cmd)
  unfolding dispatch
  dispatch-IsSound cmd = dispatch_from-IsSound (handlers tools client) cmd handlers-Fits
