-- ===== src/Node/Service/Precompiled.antt =====
-- The loop of New over the stored oracles (node/service/service.go).
use sum.Prelude.{
  ◌≢◌, ℕ, ◌≡◌, ◌∙◌, ap, sym, inl, inr, refl, String, Option, none, some, List, [], ◌∷◌, arith,
}
use sum.Prelude.Tests.{ok, err, nat_eq, nat_beq_iff, ◌==◌, Bool-cases, Result-cases}
use sum.Prelude.Map.{get, put, IsMap, get-put}
use sum.Proto.{Oracle}
use sum.Storage.Index.{for_each}
use sum.Node.Interpreter.{Interpreter}
use sum.Node.Compiler.{Compiled, compile}
use sum.Node.Service.{CompiledCache, precompile}

-- An iteration over a map meets each entry once: the entries in another order are the same map.
pub record RangeLaws {V : Type 0} (range : List (ℕ × V) → List (ℕ × V)) : Type 0 where
  pub get-range : (es : List (ℕ × V)) (id : ℕ) → IsMap es → get id (range es) ≡ get id es
  pub range-IsMap : (es : List (ℕ × V)) → IsMap es → IsMap (range es)

module _ {R : Type 0} (js : Interpreter R) where
  precompile_ok :
      (m : Oracle) (cache : CompiledCache js) (c : Compiled js)
      → compile js m ≡ ok c
      → precompile js cache m ≡ (put m.id c cache, none)
  unfolding precompile
  precompile_ok m cache c e = rw (e, precompile) refl

  precompile_step :
      (id : ℕ) (m : Oracle) (es : List (ℕ × Oracle)) (cache : CompiledCache js) (c : Compiled js)
      → compile js m ≡ ok c
      → for_each (precompile js) cache ((id, m) ∷ es)
        ≡ for_each (precompile js) (put m.id c cache) es
  unfolding for_each
  precompile_step id m es cache c e = ap (λ t. next_entry t) (precompile_ok m cache c e)
    where
      next_entry : CompiledCache js × Option String → CompiledCache js × Option String
      next_entry t =
          let rest = for_each (precompile js) t.0 es in
          elim t.1 [ none ↦ rest | some failed ↦ (t.0, some failed) ]

  precompile_stops :
      (id : ℕ) (m : Oracle) (es : List (ℕ × Oracle)) (cache : CompiledCache js) (x : String)
      → compile js m ≡ err x
      → (for_each (precompile js) cache ((id, m) ∷ es)).1 ≢ none
  unfolding for_each precompile
  precompile_stops id m es cache x e h = ground arith

  pub precompile_each :
      (es : List (ℕ × Oracle)) (cache : CompiledCache js)
      → IsMap es
      → ((id : ℕ) (m : Oracle) → get id es ≡ some m → m.id ≡ id)
      → (for_each (precompile js) cache es).1 ≡ none
      → ((j : ℕ) (o : Oracle)
          → get j es ≡ some o
          → (c : Compiled js) × (compile js o ≡ ok c)
            × (get j (for_each (precompile js) cache es).0 ≡ some c))
        × ((j : ℕ) → get j es ≡ none → get j (for_each (precompile js) cache es).0 ≡ get j cache)
  unfolding get for_each
  precompile_each [] cache hm hi done = ((λ j o p. absurd (ground arith)), λ j p. refl)
  precompile_each ((id, m) ∷ es) cache hm hi done = elim (Result-cases (compile js m)) [
    | inr (x, e) ↦ absurd (precompile_stops id m es cache x e done)
    | inl (c, e) ↦
        let step = precompile_step id m es cache c e in
        let same : m.id ≡ id = hi id m (ground (arith, nat_beq_iff id id)) in
        let later =
          precompile_each es (put m.id c cache) hm.1
            (λ j o p. hi j o (ground (arith, nat_beq_iff id j, hm.0)))
            (ap (λ t. t.1) (sym step) ∙ done) in
        (
          (λ j o p. elim (Bool-cases (id == j)) [
            | inl here ↦
                let found : get j (for_each (precompile js) cache ((id, m) ∷ es)).0 ≡ some c =
                  ap (λ t. get j t.0) step
                  ∙ later.1 j (ground (arith, hm.0, nat_beq_iff id j))
                  ∙ ground (arith, get-put j m.id c cache) in
                (c, ground arith, found)
            | inr there ↦
                let (c', h, at) = later.0 j o (ground arith) in
                (c', h, ap (λ t. get j t.0) step ∙ at)
          ]),
          λ j p.
              ap (λ t. get j t.0) step
              ∙ later.1 j (ground arith)
              ∙ ground (arith, get-put j m.id c cache),
        )
  ]
