-- ===== src/Master/Raccoon/Patch.antt =====
-- PatchCode of master/ast_raccoon.go.
pub mod Layout
pub mod Pieces
use sum.Prelude.{
  ℕ, zero, suc, ◌+◌, ◌-◌, ◌&&◌, String, Bool, true, false, Option, none, some, List, [], ◌∷◌,
}
use sum.Prelude.Tests.{Result, ok, err, ◌◇◌, ◌==◌, string_eq, leb, if◌then◌else◌}
use sum.Prelude.Lists.{get_elem?}
use sum.Prelude.Text.{size, cut}
use sum.Prelude.Int.{ℤ, pos, negsuc, ◌+ℤ◌, ◌-ℤ◌, sub_ℕ}
use sum.Node.Interpreter.{Ending, returned, failed, panicked, Panic}
use sum.Master.Raccoon.{Parser, Resolved, CallExpression, AstRaccoon, serialised}

-- `newCode` and `shift`
pub record Patched : Type 0 where
  pub code : String
  pub shift : ℤ

abbrev pub out_of_bounds : Panic
out_of_bounds = Panic.error "runtime error: slice bounds out of range"

-- the two slices and the new shift, for the shifted bounds
unfoldable pub splice : ℤ → ℤ → String → Patched → Ending Patched
unfolding cut
splice (pos i) (pos j) new p =
    if leb i (size p.code) && leb j (size p.code)
    then returned
        (record { code = cut i j new p.code; shift = p.shift +ℤ (pos (size new) -ℤ sub_ℕ j i) })
    else panicked out_of_bounds
splice _ _ new p = panicked out_of_bounds

-- one replacement
unfoldable pub patch_call : ℕ → ℕ → String → Patched → Ending Patched
unfolding splice
patch_call idx0 idx1 new p = splice (pos idx0 +ℤ p.shift) (pos idx1 +ℤ p.shift) new p

-- `n.ArgumentList[0].(*ast.Identifier).Name == p.Name`, for the calls that Enter has collected
unfoldable pub takes : String → CallExpression → Bool
takes name c = elim c.arguments [
  | [] ↦ false
  | arg ∷ _ ↦ elim arg [ none ↦ false | some n ↦ n == name ]
]

abbrev pub new_record : String → String
new_record serialised_record = "records.New(" ◇ serialised_record ◇ ")"

module _ (js : Parser) where
  -- the loop over the calls, for one resolved parameter
  unfoldable pub patch_calls : String → Resolved → List CallExpression → Patched → Ending Patched
  unfolding patch_call takes
  patch_calls name r [] p = returned p
  patch_calls name r (c ∷ calls) p = elim (takes name c) [
    | false ↦ patch_calls name r calls p
    | true ↦ elim (serialised js r) [
      | err e ↦ failed e
      | ok text ↦ elim (patch_call c.idx0 c.idx1 (new_record text) p) [
        | returned p' ↦ patch_calls name r calls p'
        | failed e ↦ failed e
        | panicked e ↦ panicked e
      ]
    ]
  ]

  -- the loop over the parameters, from the given position on
  unfoldable pub patch_parameters :
      List String → ℕ → List (Option Resolved) → List CallExpression → Patched → Ending Patched
  unfolding patch_calls
  patch_parameters [] i records calls p = returned p
  patch_parameters (name ∷ names) i records calls p = elim (get_elem? records i) [
    | none ↦ panicked (Panic.error "runtime error: index out of range")
    | some none ↦ patch_parameters names (suc i) records calls p
    | some (some r) ↦ elim (patch_calls name r calls p) [
      | returned p' ↦ patch_parameters names (suc i) records calls p'
      | failed e ↦ failed e
      | panicked e ↦ panicked e
    ]
  ]

-- PatchCode
unfoldable pub code_of : Ending Patched → Ending String
code_of (returned p) = returned p.code
code_of (failed e) = failed e
code_of (panicked e) = panicked e

unfoldable pub patch_code : {js : Parser} → List (Option Resolved) → AstRaccoon js → Ending String
unfolding patch_parameters code_of
patch_code {js} records a = code_of (
    patch_parameters js a.parameters 0 records a.call_nodes
      (record { code = a.src; shift = pos 0 }))
