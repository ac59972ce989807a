-- ===== src/Master/Raccoon/Patch/Layout.antt =====
-- Replacements at once and one after the other in a text in pieces (master/ast_raccoon.go).
use text.Mathlib.TextLemmas.{append_assoc}
use sum.Prelude.{
  ℕ, suc, ◌+◌, ◌≡◌, ◌∙◌, ap, sym, refl, String, true, false, Option, none, some, List, [], ◌∷◌,
  ◌++◌, ◌&&◌, arith,
}
use sum.Prelude.Tests.{Result, ok, err, ◌◇◌, leb}
use sum.Prelude.Lists.{get_elem?}
use sum.Prelude.Text.{size, cut, before-append, after-append, size-append}
use sum.Prelude.Int.{ℤ, pos, ◌+ℤ◌, ◌-ℤ◌, sub_ℕ}
use sum.Node.Interpreter.{Ending, returned, failed, panicked}
use sum.Master.Raccoon.{Parser, Resolved, CallExpression, serialised}
use sum.Master.Raccoon.Patch.{Patched, splice, patch_call, takes, new_record}

-- a replacement: where it begins and ends in the source, and the new text
abbrev pub Site : Type 0
Site = ℕ × ℕ × String

-- the replacements one after the other
unfoldable pub patch_each : List Site → Patched → Ending Patched
patch_each [] p = returned p
patch_each ((i, j, new) ∷ sites) p = elim (patch_call i j new p) [
  | returned p' ↦ patch_each sites p'
  | failed e ↦ failed e
  | panicked e ↦ panicked e
]

-- a source in pieces: the text up to a call, the call, and what replaces it
pub record Piece : Type 0 where
  pub gap : String
  pub old : String
  pub new : String

unfoldable pub old_text : List Piece → String → String
old_text [] tail = tail
old_text (p ∷ ps) tail = p.gap ◇ (p.old ◇ old_text ps tail)

unfoldable pub new_text : List Piece → String → String
new_text [] tail = tail
new_text (p ∷ ps) tail = p.gap ◇ (p.new ◇ new_text ps tail)

-- the replacements of the pieces of a text that begins at the given position
unfoldable pub layout : ℕ → List Piece → List Site
layout at [] = []
layout at (p ∷ ps) =
    (at + size p.gap, at + size p.gap + size p.old, p.new)
    ∷ layout (at + size p.gap + size p.old) ps

module _ (js : Parser) where
  -- the replacements that the loops make, in their order, or the first error of json.Marshal
  unfoldable pub sites_of_calls :
      String → Resolved → List CallExpression → Result String (List Site)
  sites_of_calls name r [] = ok []
  sites_of_calls name r (c ∷ calls) = elim (takes name c) [
    | false ↦ sites_of_calls name r calls
    | true ↦ elim (serialised js r) [
      | err e ↦ err e
      | ok text ↦ elim (sites_of_calls name r calls) [
        | err e ↦ err e
        | ok sites ↦ ok ((c.idx0, c.idx1, new_record text) ∷ sites)
      ]
    ]
  ]

  unfoldable pub sites_of :
      List String → ℕ → List (Option Resolved) → List CallExpression → Result String (List Site)
  unfolding sites_of_calls
  sites_of [] i records calls = ok []
  sites_of (name ∷ names) i records calls = elim (get_elem? records i) [
    | none ↦ err "a parameter without a place for its record"
    | some none ↦ sites_of names (suc i) records calls
    | some (some r) ↦ elim (sites_of_calls name r calls) [
      | err e ↦ err e
      | ok sites ↦ elim (sites_of names (suc i) records calls) [
        | err e ↦ err e
        | ok rest ↦ ok (sites ++ rest)
      ]
    ]
  ]

pub cut_lem :
    (a old rest new : String)
    → cut (size a) (size a + size old) new (a ◇ (old ◇ rest)) ≡ a ◇ (new ◇ rest)
unfolding cut
cut_lem a old rest new =
    rw
      (
        before-append a (old ◇ rest),
        ← size-append a old,
        ← append_assoc a old rest,
        after-append (a ◇ old) rest,
      )
      refl

-- one replacement after the text `a`
pub splice_lem :
    (a old rest new : String) (shift : ℤ)
    → splice
        (pos (size a))
        (pos (size a + size old))
        new
        (record { code = a ◇ (old ◇ rest); shift = shift })
      ≡ returned (record {
        code = a ◇ (new ◇ rest);
        shift = shift +ℤ (pos (size new) -ℤ sub_ℕ (size a + size old) (size a));
      })
unfolding splice
splice_lem a old rest new shift =
    let inside : leb (size a) (size (a ◇ (old ◇ rest)))
          && leb (size a + size old) (size (a ◇ (old ◇ rest)))
        ≡ true =
      ground (arith, size-append a (old ◇ rest), size-append old rest) in
    rw (inside, splice) (rw (cut_lem a old rest new) refl)

pub patch_call_lem :
    (a old rest new : String) (idx0 idx1 : ℕ) (shift : ℤ)
    → pos idx0 +ℤ shift ≡ pos (size a)
    → pos idx1 +ℤ shift ≡ pos (size a + size old)
    → patch_call idx0 idx1 new (record { code = a ◇ (old ◇ rest); shift = shift })
      ≡ returned (record {
        code = (a ◇ new) ◇ rest;
        shift = shift +ℤ (pos (size new) -ℤ sub_ℕ (size a + size old) (size a));
      })
unfolding patch_call
patch_call_lem a old rest new idx0 idx1 shift h k =
    rw (h, k, append_assoc a new rest) (splice_lem a old rest new shift)

-- the new shift takes the end of the old text to the end of the new
pub shift_lem :
    (at gap old new done here : ℕ) (shift : ℤ)
    → pos at +ℤ shift ≡ pos done
    → here ≡ done + gap
    → (pos (at + gap) +ℤ shift ≡ pos here)
      × (pos (at + gap + old) +ℤ shift ≡ pos (here + old))
      × (pos (at + gap + old) +ℤ (shift +ℤ (pos new -ℤ sub_ℕ (here + old) here)) ≡ pos (here + new))
unfolding ◌+ℤ◌ ◌-ℤ◌
shift_lem at gap old new done here shift h e = (ground arith, ground arith, ground arith)

pub patch_each-layout :
    (ps : List Piece) (tail done : String) (at : ℕ) (shift : ℤ)
    → pos at +ℤ shift ≡ pos (size done)
    → (shift' : ℤ) × (patch_each
          (layout at ps)
          (record { code = done ◇ old_text ps tail; shift = shift })
        ≡ returned (record { code = done ◇ new_text ps tail; shift = shift' }))
unfolding patch_each layout old_text new_text
patch_each-layout [] tail done at shift h = (shift, refl)
patch_each-layout (p ∷ ps) tail done at shift h =
    let a = done ◇ p.gap in
    let (h0, h1, h2) =
      shift_lem at (size p.gap) (size p.old) (size p.new) (size done) (size a) shift h
        (size-append done p.gap) in
    let first = patch_call_lem a p.old (old_text ps tail) p.new _ _ shift h0 h1 in
    let (shift', rest) =
      patch_each-layout ps tail (a ◇ p.new) (at + size p.gap + size p.old) _
        (h2 ∙ ap pos (sym (size-append a p.new))) in
    (
      shift',
      ap (λ c. patch_each (layout at (p ∷ ps)) (record { code = c; shift = shift }))
            (sym (append_assoc done p.gap (p.old ◇ old_text ps tail)))
          ∙ rw (first, patch_each) rest
          ∙ ap (λ c. returned (record { code = c; shift = shift' }))
              (append_assoc a p.new (new_text ps tail)
                ∙ append_assoc done p.gap (p.new ◇ new_text ps tail)),
    )
