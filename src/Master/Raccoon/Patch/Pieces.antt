-- ===== src/Master/Raccoon/Patch/Pieces.antt =====
-- The rewriting of PatchCode beside a replacement of all calls at once (master/ast_raccoon.go).
use text.Mathlib.TextLemmas.{nil-append}
use sum.Prelude.{
  ℕ, suc, ◌≡◌, refl, inl, inr, String, Option, none, some, List, [], ◌∷◌, ◌++◌, arith,
}
use sum.Prelude.Tests.{ok, Result-cases, Bool-cases, Option-cases}
use sum.Prelude.Lists.{get_elem?}
use sum.Prelude.Text.{size}
use sum.Prelude.Int.{pos, ◌+ℤ◌}
use sum.Node.Interpreter.{Ending, returned, failed, panicked}
use sum.Master.Raccoon.{Parser, Resolved, CallExpression, AstRaccoon, serialised}
use sum.Master.Raccoon.Patch.{
  Patched, patch_call, takes, new_record, patch_calls, patch_parameters, code_of, patch_code,
}
use sum.Master.Raccoon.Patch.Layout.{
  sites_of, sites_of_calls, Site, patch_each, Piece, old_text, new_text, layout, patch_each-layout,
}

-- the loops make the replacements one after the other
unfoldable on_with : List Site → Ending Patched → Ending Patched
unfolding patch_each
on_with ys (returned q) = patch_each ys q
on_with ys (failed e) = failed e
on_with ys (panicked e) = panicked e

patch_each-append :
    (xs ys : List Site) (p : Patched) → patch_each (xs ++ ys) p ≡ on_with ys (patch_each xs p)
unfolding patch_each on_with
patch_each-append [] ys p = refl
patch_each-append ((i, j, new) ∷ xs) ys p =
    elim (patch_call i j new p)
      as (λ q.
        ◌≡◌ {A = Ending Patched}
          (elim q as (λ _. Ending Patched) [
            | returned p' ↦ patch_each (xs ++ ys) p'
            | failed e ↦ failed e
            | panicked e ↦ panicked e
          ])
          (on_with ys (elim q as (λ _. Ending Patched) [
            | returned p' ↦ patch_each xs p'
            | failed e ↦ failed e
            | panicked e ↦ panicked e
          ]))) [ returned p' ↦ patch_each-append xs ys p' | failed e ↦ refl | panicked e ↦ refl ]

module _ (js : Parser) where
  patch_calls_lem :
      (name : String) (r : Resolved) (calls : List CallExpression) (sites : List Site) (p : Patched)
      → sites_of_calls js name r calls ≡ ok sites
      → patch_calls js name r calls p ≡ patch_each sites p
  unfolding sites_of_calls patch_calls patch_each
  patch_calls_lem name r [] sites p h = ground arith
  patch_calls_lem name r (c ∷ calls) sites p h = elim (Bool-cases (takes name c)) [
    | inr e ↦
        rw (e, patch_calls) (patch_calls_lem name r calls sites p (rw (e, sites_of_calls) at h))
    | inl e ↦ elim (Result-cases (serialised js r)) [
      | inr (x, f) ↦ ground (arith, e, f)
      | inl (text, f) ↦ elim (Result-cases (sites_of_calls js name r calls)) [
        | inr (x, g) ↦ ground (arith, e, f, g)
        | inl (rest, g) ↦
            let step = λ (q : Patched). patch_calls_lem name r calls rest q g in
            let here : sites ≡ (c.idx0, c.idx1, new_record text) ∷ rest = ground (arith, e, f, g) in
            rw (here, e, patch_calls, f)
              (elim (patch_call c.idx0 c.idx1 (new_record text) p)
                as (λ q.
                  ◌≡◌ {A = Ending Patched}
                    (elim q as (λ _. Ending Patched) [
                      | returned p' ↦ patch_calls js name r calls p'
                      | failed e ↦ failed e
                      | panicked e ↦ panicked e
                    ])
                    (elim q as (λ _. Ending Patched) [
                      | returned p' ↦ patch_each rest p'
                      | failed e ↦ failed e
                      | panicked e ↦ panicked e
                    ])) [ returned p' ↦ step p' | failed e ↦ refl | panicked e ↦ refl ])
      ]
    ]
  ]

  patch_parameters_lem :
      (names : List String) (i : ℕ) (records : List (Option Resolved)) (calls : List CallExpression)
      (sites : List Site) (p : Patched)
      → sites_of js names i records calls ≡ ok sites
      → patch_parameters js names i records calls p ≡ patch_each sites p
  unfolding sites_of patch_parameters patch_each on_with
  patch_parameters_lem [] i records calls sites p h = ground arith
  patch_parameters_lem (name ∷ names) i records calls sites p h =
      elim (Option-cases (get_elem? records i)) [
        | inl e ↦ ground (arith, e)
        | inr (none, e) ↦
            rw (e, patch_parameters)
              (patch_parameters_lem names (suc i) records calls sites p (rw (e, sites_of) at h))
        | inr (some r, e) ↦ elim (Result-cases (sites_of_calls js name r calls)) [
          | inr (x, f) ↦ ground (arith, e, f)
          | inl (first, f) ↦ elim (Result-cases (sites_of js names (suc i) records calls)) [
            | inr (x, g) ↦ ground (arith, e, f, g)
            | inl (rest, g) ↦
                let step =
                  λ (q : Patched). patch_parameters_lem names (suc i) records calls rest q g in
                let here : sites ≡ first ++ rest = ground (arith, e, f, g) in
                rw
                  (
                    here,
                    e,
                    patch_parameters,
                    patch_calls_lem name r calls first p f,
                    patch_each-append first rest p,
                  )
                  (elim (patch_each first p)
                    as (λ q.
                      ◌≡◌ {A = Ending Patched}
                        (elim q as (λ _. Ending Patched) [
                          | returned p' ↦ patch_parameters js names (suc i) records calls p'
                          | failed e ↦ failed e
                          | panicked e ↦ panicked e
                        ])
                        (on_with rest q)) [
                          | returned p' ↦ step p'
                          | failed e ↦ refl
                          | panicked e ↦ refl
                        ])
          ]
        ]
      ]

-- Where the replacements that PatchCode makes, in its order, lie one after the other in the
-- source, its result is the source with every looked-up call replaced at once by its new text,
-- whatever the lengths.
pub patch_code_lem :
    {js : Parser} (a : AstRaccoon js) (records : List (Option Resolved)) (sites : List Site)
    (ps : List Piece) (tail : String)
    → sites_of js a.parameters 0 records a.call_nodes ≡ ok sites
    → sites ≡ layout 0 ps
    → a.src ≡ old_text ps tail
    → patch_code records a ≡ returned (new_text ps tail)
unfolding patch_code code_of ◌+ℤ◌ size
patch_code_lem {js} a records sites ps tail h e f =
    let (shift, all) = patch_each-layout ps tail "" 0 (pos 0) refl in
    rw
      (
        patch_parameters_lem js a.parameters 0 records a.call_nodes sites _ h,
        e,
        f,
        ← nil-append (old_text ps tail),
        all,
        nil-append (new_text ps tail),
      )
      refl
