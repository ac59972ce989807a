-- ===== src/Cli/Oracles/Naming.antt =====
-- The names of the stored oracles of a node.
use sum.Prelude.{
  ℕ, ◌≡◌, ◌≢◌, ◌⊎◌, inl, inr, refl, sym, ap, subst, String, Option, none, some, List, [], ◌∷◌,
  arith,
}
use sum.Prelude.Tests.{nat_eq, string_eq, ◌==◌, beq_self, Bool-cases, Option-cases, if◌then◌else◌}
use sum.Prelude.Map.{get, IsMap}
use sum.Proto.{Oracle}
use sum.Storage.Env.{Env}
use sum.Storage.Driver.{oracle_driver, oracle_driver-DriverLaws, copy_oracle}
use sum.Storage.Index
use sum.Storage.Index.{Index, for_each}
use sum.Storage.Index.Validity.{IsValid, create-IsValid, update-IsValid, delete-IsValid}
use sum.Storage.Index.Effects.{
  create_fresh, create_failed, update_missing, update_stored, delete_lem,
}
use sum.Node.Oracles.{keep_named}

-- no two entries have the same name
abbrev pub NamesDiffer : List (ℕ × Oracle) → Type 0
NamesDiffer es =
    (i j : ℕ) (a b : Oracle) → get i es ≡ some a → get j es ≡ some b → a.name ≡ b.name → i ≡ j

-- no entry but that of the identifier has the name
abbrev pub IsFreeBut : ℕ → String → List (ℕ × Oracle) → Type 0
IsFreeBut id name es = (j : ℕ) (b : Oracle) → get j es ≡ some b → b.name ≡ name → j ≡ id

put-NamesDiffer :
    (id : ℕ) (m : Oracle) (es es' : List (ℕ × Oracle))
    → ((j : ℕ) → get j es' ≡ (if id == j then some m else get j es))
    → IsFreeBut id m.name es
    → NamesDiffer es
    → NamesDiffer es'
put-NamesDiffer id m es es' at free h i j a b p q e =
    ground
      (arith, at i, at j, nat_eq.means_eq id i, nat_eq.means_eq id j, free i a, free j b, h i j a b)

same-NamesDiffer : (es es' : List (ℕ × Oracle)) → es' ≡ es → NamesDiffer es → NamesDiffer es'
same-NamesDiffer es es' e h = subst NamesDiffer (sym e) h

del-NamesDiffer :
    (id : ℕ) (es es' : List (ℕ × Oracle))
    → ((j : ℕ) → get j es' ≡ (if id == j then none else get j es))
    → NamesDiffer es
    → NamesDiffer es'
del-NamesDiffer id es es' at h i j a b p q e = ground (arith, at i, at j, h i j a b)

-- the well-formed index of a node whose oracles have different names
pub record IsUnique {oenv : Env Oracle} (i : Index oenv) : Type 0 where
  pub valid : IsValid oracle_driver i
  pub differ : NamesDiffer i.index

module _ {oenv : Env Oracle} where
  pub create-IsUnique :
      (o : Oracle) (i : Index oenv)
      → ((j : ℕ) (b : Oracle) → get j i.index ≡ some b → b.name ≢ o.name)
      → IsUnique i
      → IsUnique (Index.create oracle_driver o i).0
  unfolding Index.find Index.created
  create-IsUnique o i free u = record {
    valid = create-IsValid oracle_driver oracle_driver-DriverLaws o i u.valid;
    differ = elim (Option-cases (Index.create oracle_driver o i).1) [
      | inl e ↦
          put-NamesDiffer i.next_id (Index.created oracle_driver o i) i.index
            (Index.create oracle_driver o i).0.index (create_fresh oracle_driver o i e).2
            (λ j b p n. absurd (free j b p n)) u.differ
      | inr (x, e) ↦
          same-NamesDiffer i.index (Index.create oracle_driver o i).0.index
            (create_failed oracle_driver o i x e).0 u.differ
    ];
  }

  pub update-IsUnique :
      (o : Oracle) (i : Index oenv)
      → IsFreeBut o.id o.name i.index
      → IsUnique i
      → IsUnique (Index.update oracle_driver o i).0
  unfolding Index.find copy_oracle
  update-IsUnique o i free u = record {
    valid = update-IsValid oracle_driver oracle_driver-DriverLaws o i u.valid;
    differ = elim (Option-cases (Index.find o.id i)) [
      | inl e ↦
          same-NamesDiffer i.index (Index.update oracle_driver o i).0.index
            (ap (λ (out : Index.Outcome oenv). out.0.index) (update_missing oracle_driver o i e))
            u.differ
      | inr (old, e) ↦
          put-NamesDiffer o.id (copy_oracle old o) i.index (Index.update oracle_driver o i).0.index
            (update_stored oracle_driver o old (copy_oracle old o) i e refl).1 free u.differ
    ];
  }

  pub delete-IsUnique : (id : ℕ) (i : Index oenv) → IsUnique i → IsUnique (Index.delete id i).0
  unfolding Index.find
  delete-IsUnique id i u = record {
    valid = delete-IsValid oracle_driver id i u.valid;
    differ = del-NamesDiffer id i.index (Index.delete id i).0.index (delete_lem id i).1 u.differ;
  }

-- the search by name finds a stored oracle of this name, or keeps what it had where there is none
pub for_each-keep_named :
    (name : String) (es : List (ℕ × Oracle)) (found : Option Oracle)
    → IsMap es
    → ((k : ℕ) × (o : Oracle) × ((for_each (keep_named name) found es).0 ≡ some o)
        × (get k es ≡ some o)
        × (o.name ≡ name))
      ⊎ (((for_each (keep_named name) found es).0 ≡ found)
          × ((k : ℕ) (o : Oracle) → get k es ≡ some o → o.name ≢ name))
unfolding for_each keep_named get
for_each-keep_named name [] found h = inr (refl, λ k o e. absurd (ground arith))
for_each-keep_named name ((id, m) ∷ es) found (fresh, h) = elim (Bool-cases (m.name == name)) [
  | inl b ↦ rw (b) (elim (for_each-keep_named name es (some m) h) [
    | inl (k, o, r, g, n) ↦ inl (k, o, r, later k o g, n)
    | inr (r, others) ↦ inl (id, m, r, rw (beq_self id) refl, (string_eq.means_eq m.name name).0 b)
  ])
  | inr b ↦ rw (b) (elim (for_each-keep_named name es found h) [
    | inl (k, o, r, g, n) ↦ inl (k, o, r, later k o g, n)
    | inr (r, others) ↦ inr (r, λ k o e. ground (arith, others k o, string_eq.means_eq m.name name))
  ])
]
  where
    later : (k : ℕ) (o : Oracle) → get k es ≡ some o → get k ((id, m) ∷ es) ≡ some o
    later k o g = ground (arith, nat_eq.means_eq id k)
