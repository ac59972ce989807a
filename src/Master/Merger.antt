-- ===== src/Master/Merger.antt =====
-- merge and defaultMerger of master/mux_runner.go.
pub mod Merged
use sum.Prelude.{String, Option, none, some, List, [], ◌∷◌, ◌++◌}
use sum.Prelude.Tests.{Result, ok, err, ◌◇◌, ◌==◌, string_eq, if◌then◌else◌}
use sum.Prelude.Map.{get, put}
use sum.Wrapper.Context.{Context}
use sum.Node.Interpreter.{Ending, returned, failed, panicked, Panic}
use sum.Master.Raccoon.{Parser, AstRaccoon}

-- A value that encoding/json has read; `J` are the values inside one. A scalar comes with what `%v`
-- prints of its type.
pub data Value (J : Type 0) : Type 0 where
  object : List (String × J) → Value J
  array : List J → Value J
  scalar : String → J → Value J
  null : Value J

-- reflect.TypeOf, as `%v` prints it; `none` is the nil type
unfoldable pub type_of : {J : Type 0} → Value J → Option String
type_of (object _) = some "map[string]interface {}"
type_of (array _) = some "[]interface {}"
type_of (scalar t _) = some t
type_of null = none

-- the maps and slices that are made on the first value
unfoldable pub entries_of : {J : Type 0} → Value J → List (String × J)
entries_of (object m) = m
entries_of _ = []

unfoldable pub items_of : {J : Type 0} → Value J → List J
items_of (array l) = l
items_of _ = []

module _ {J : Type 0} (print : J → String) where
  -- the loop over the keys of a map
  unfoldable pub merge_entries :
      List (String × J) → List (String × J) → Result String (List (String × J))
  unfolding get put
  merge_entries mr [] = ok mr
  merge_entries mr ((k, v) ∷ m) = elim (get k mr) [
    | some v1 ↦ err (
        "merge conflict: multiple results define key "
        ◇ k
        ◇ ": oldValue='"
        ◇ print v1
        ◇ "', newValue='"
        ◇ print v
        ◇ "'")
    | none ↦ merge_entries (put k v mr) m
  ]

  -- the switch on the kind, for a value of the type of the others
  unfoldable pub merge_value : String → Value J → Value J → Ending (Value J)
  unfolding merge_entries entries_of items_of
  merge_value t merged (object m) = elim (merge_entries (entries_of merged) m) [
    | err e ↦ failed e
    | ok mr ↦ returned (object mr)
  ]
  merge_value t merged (array l) = returned (array (items_of merged ++ l))
  merge_value t merged _ =
      failed
        ("type " ◇ t ◇ " is not supported for auto-merge, please provide a custom merge function")

  abbrev pub heterogeneous : String → String → String
  heterogeneous t t1 =
      "heterogeneous results: prior results had type " ◇ t ◇ ", this one has type " ◇ t1

  -- one round, for the types so far and now; Kind of the nil type is a nil dereference
  unfoldable pub merge_typed : Option String → Option String → Value J → Value J → Ending (Value J)
  unfolding merge_value
  merge_typed none none merged v =
      panicked (Panic.error "runtime error: invalid memory address or nil pointer dereference")
  merge_typed none (some t1) merged v = merge_value t1 merged v
  merge_typed (some t) none merged v = failed (heterogeneous t "<nil>")
  merge_typed (some t) (some t1) merged v =
      if t == t1 then merge_value t1 merged v else failed (heterogeneous t t1)

  -- the loop, for the type of the results before
  unfoldable pub merge_from : Option String → Value J → List (Value J) → Ending (Value J)
  unfolding merge_typed type_of
  merge_from t merged [] = returned merged
  merge_from t merged (v ∷ results) = elim (merge_typed t (type_of v) merged v) [
    | returned merged' ↦ merge_from (type_of v) merged' results
    | failed e ↦ failed e
    | panicked e ↦ panicked e
  ]

  unfoldable pub default_merger : List (Value J) → Ending (Value J)
  unfolding merge_from
  default_merger results = merge_from none null results

-- What merge takes from otto. A call changes the world, to which the pool of virtual machines belongs.
pub record MergerVm (W J : Type 0) : Type 1 where
  pub Ret : Type 0
  pub print : J → String
  pub set_results : String → List (Value J) → W → W × Option String
  pub set_context : W → W × Option String
  pub run : String → W → (W × Context) × Result String Ret
  pub export : Ret → Result String (Value J)

module _ {W J : Type 0} (vm : MergerVm W J) where
  -- what merge makes of a run of the merger function
  unfoldable pub merged_by : Context → Result String vm.Ret → Ending (Value J)
  merged_by ctx (err e) = failed ("unable to run merger function: " ◇ e)
  merged_by ctx (ok ret) =
      if ctx.is_error
      then failed ("merger function failed: " ◇ ctx.message)
      else elim (vm.export ret) [
        | err e ↦ failed ("couldn't deserialize returned object from merger: " ◇ e)
        | ok v ↦ returned v
      ]

  -- merge, for a merger function and its parameter
  unfoldable pub call_merger :
      (src name parameter : String) → List (Value J) → W → W × Ending (Value J)
  unfolding merged_by
  call_merger src name parameter results w =
      let (w1, bad) = vm.set_results parameter results w in
      elim bad [
        | some e ↦ (w1, failed ("unable to set parameter variable '" ◇ parameter ◇ "': " ◇ e))
        | none ↦
            let (w2, bad_context) = vm.set_context w1 in
            elim bad_context [
              | some e ↦ (w2, failed ("unable to set parameter variable 'ctx': " ◇ e))
              | none ↦
                  let ((w3, ctx), ret) = vm.run (src ◇ "\n" ◇ name ◇ "(" ◇ parameter ◇ ")") w2 in
                  (w3, merged_by ctx ret)
            ]
      ]

  unfoldable pub merge : {js : Parser} → AstRaccoon js → List (Value J) → W → W × Ending (Value J)
  unfolding default_merger call_merger
  merge a results w = elim (a.merger_function) [
    | none ↦ (w, default_merger vm.print results)
    | some f ↦ elim (f.parameters) [
      | [] ↦ (w, panicked (Panic.error "runtime error: index out of range"))
      | parameter ∷ _ ↦ call_merger a.src f.name parameter results w
    ]
  ]
