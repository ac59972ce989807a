-- ===== src/Node/Run/Outcome.antt =====
-- The arguments and the end of a run (node/service/compiled.go).
use mathlib.Core.List.{append-nil, append_assoc}
use sum.Prelude.{
  ℕ, zero, suc, ◌+◌, ◌-◌, ◌<◌, ◌≤◌, ◌≡◌, ◌∙◌, ◌⊎◌, ap, sym, subst, refl, inl, inr, String, true,
  Option, none, some, List, [], ◌∷◌, ◌++◌, arith,
}
use sum.Prelude.Tests.{ok, err, ◌◇◌, ltb, Result-cases}
use sum.Proto.{Oracle}
use sum.Prelude.Lists.{All, length, get_elem?, set, drop, drop_of_length-le, length-append}
use sum.Wrapper.Context.{Context}
use sum.Node.Interpreter.{Interpreter, Ending, returned, failed}
use sum.Node.Pool.{ExecutionPool, get_vm, set_free, num_vm_in_pool}
use sum.Node.Compiler.{Compiled}
use sum.Node.Run.{pad_args, set_args, evaluate, result, released, compiled_run}

pub List-cases {ℓ} : {A : Type ℓ} (l : List A) → (l ≡ []) ⊎ ((x : A) × (xs : List A) × (l ≡ x ∷ xs))
List-cases [] = inl refl
List-cases (x ∷ xs) = inr (x, xs, refl)

nulls : ℕ → List String
nulls zero = []
nulls (suc n) = "null" ∷ nulls n

length-nulls : (n : ℕ) → length (nulls n) ≡ n
unfolding nulls
length-nulls zero = refl
length-nulls (suc n) = ap suc (length-nulls n)

pad_args-nulls : (n : ℕ) (args : List String) → pad_args n args ≡ args ++ nulls n
unfolding pad_args nulls
pad_args-nulls zero args = sym (append-nil args)
pad_args-nulls (suc n) args =
    pad_args-nulls n (args ++ "null" ∷ []) ∙ append_assoc args ("null" ∷ []) (nulls n)

get_elem?-drop {ℓ} :
    {A : Type ℓ} (i : ℕ) (xs : List A)
    → i < length xs
    → (x : A) × (get_elem? xs i ≡ some x) × (drop i xs ≡ x ∷ drop (suc i) xs)
get_elem?-drop i [] h = absurd (omega arith)
get_elem?-drop zero (x ∷ xs) h = (x, refl, refl)
get_elem?-drop (suc i) (x ∷ xs) h = get_elem?-drop i xs (omega arith)

module _ {R : Type 0} (js : Interpreter R) where
  open js use {Vm, Value, Bytes}

  -- The arguments as the parameters see them: in order, `null` for a missing one, the rest
  -- ignored, up to the first that is no JSON.
  unfoldable pub bind_args : (names args : List String) → Vm → Vm × Ending Unit
  bind_args [] args vm = (vm, returned tt)
  bind_args (name ∷ names) args vm =
      let raw : String = elim args [ [] ↦ "null" | a ∷ _ ↦ a ] in
      elim (js.unmarshal raw) [
        | err e ↦ (vm, failed ("could not unmarshal value '" ◇ raw ◇ "': " ◇ e))
        | ok v ↦ bind_args names (drop 1 args) (js.set_value vm name v)
      ]

  bind_args-nulls :
      (names args : List String) (n : ℕ) (vm : Vm)
      → bind_args names (args ++ nulls n) vm ≡ bind_args names args vm
  unfolding bind_args nulls
  bind_args-nulls [] args n vm = refl
  bind_args-nulls (name ∷ names) [] zero vm = refl
  bind_args-nulls (name ∷ names) [] (suc n) vm = elim (Result-cases (js.unmarshal "null")) [
    | inl (v, e) ↦ rw (e, bind_args) (bind_args-nulls names [] n (js.set_value vm name v))
    | inr (x, e) ↦ rw (e, bind_args) refl
  ]
  bind_args-nulls (name ∷ names) (a ∷ args) n vm = elim (Result-cases (js.unmarshal a)) [
    | inl (v, e) ↦ rw (e, bind_args) (bind_args-nulls names args n (js.set_value vm name v))
    | inr (x, e) ↦ rw (e, bind_args) refl
  ]

  set_args-drop :
      (left i : ℕ) (args names : List String) (vm : Vm)
      → i + left ≤ length args
      → length names ≡ i + left
      → set_args js left i args names vm ≡ bind_args (drop i names) (drop i args) vm
  unfolding set_args bind_args
  set_args-drop zero i args names vm ha hn = rw (drop_of_length-le i names (omega arith)) refl
  set_args-drop (suc left) i args names vm ha hn =
      let (a, ga, da) = get_elem?-drop i args (omega arith) in
      let (name, gn, dn) = get_elem?-drop i names (omega arith) in
      elim (Result-cases (js.unmarshal a)) [
        | inl (v, e) ↦
            rw (ga, set_args)
              (rw (e) (
                rw (gn) (
                  rw (da, dn, bind_args)
                    (rw (e) (
                      set_args-drop left (suc i) args names (js.set_value vm name v) (omega arith)
                        (omega arith))))))
        | inr (x, e) ↦ rw (ga, set_args) (rw (e) (rw (da, dn, bind_args) (rw (e) refl)))
      ]

  -- The loops of Run over the arguments bind each parameter of the oracle to the argument in its
  -- place, or to null, up to the first that is no JSON, and never index a list out of its range.
  pub bind_args_lem :
      (names args : List String) (vm : Vm)
      → set_args js (length names) 0 (pad_args (length names - length args) args) names vm
        ≡ bind_args names args vm
  bind_args_lem names args vm =
      let n = length names - length args in
      rw (pad_args-nulls n args) (
        set_args-drop (length names) 0 (args ++ nulls n) names vm
          (omega (arith, length-append args (nulls n), length-nulls n)) (omega arith)
        ∙ bind_args-nulls names args n vm)

  -- as many names as parameters, all the interpreters of the pool, and one of them free
  pub record IsReady (c : Compiled js) : Type 0 where
    pub argc : c.argc ≡ length c.args
    pub clones : length c.pool.clones ≡ num_vm_in_pool
    pub way : All (λ i. i < num_vm_in_pool) c.pool.free_way
    pub free : (0 < length c.pool.free_way) × (length c.pool.free_way ≤ num_vm_in_pool)

  -- the parts of a compiled oracle that no run changes
  unfoldable pub program : Compiled js → Oracle × js.Script × ℕ × List String
  program c = (c.oracle, c.call, c.argc, c.args)

  length-set : {A : Type 0} (xs : List A) (i : ℕ) (v : A) → length (set xs i v) ≡ length xs
  length-set [] i v = refl
  length-set (x ∷ xs) zero v = refl
  length-set (x ∷ xs) (suc i) v = ap suc (length-set xs i v)

  All-snoc : (xs : List ℕ) (n i : ℕ) → All (λ j. j < n) xs → i < n → All (λ j. j < n) (xs ++ i ∷ [])
  All-snoc [] n i h hi = (hi, tt)
  All-snoc (x ∷ xs) n i h hi = (h.0, All-snoc xs n i h.1 hi)

  released_lem :
      (i : ℕ) (c : Compiled js) (e : (Vm × (R × Context)) × Ending Value)
      → i < num_vm_in_pool
      → c.argc ≡ length c.args
      → length c.pool.clones ≡ num_vm_in_pool
      → All (λ j. j < num_vm_in_pool) c.pool.free_way
      → length c.pool.free_way < num_vm_in_pool
      → (c' : Compiled js) × (released js i c e ≡ some (c', e.0.1.0, result js e.0.1.1 e.1))
        × IsReady c'
        × (program c' ≡ program c)
  unfolding released set_free program
  released_lem i c ((vm, (r, ctx)), ending) hi ha hc hw hl =
      let p : ExecutionPool Vm = record c.pool {
        clones = set c.pool.clones i vm;
        free_way = c.pool.free_way ++ i ∷ [];
        free_list = set c.pool.free_list i none;
      } in
      let c' : Compiled js = record c { pool = p } in
      let room : ltb (length c.pool.free_way) num_vm_in_pool ≡ true = ground arith in
      let freed : set_free i (record c.pool { clones = set c.pool.clones i vm }) ≡ some p =
        rw (room, set_free) refl in
      (
        c',
        rw (freed, released) refl,
        record {
          argc = ha;
          clones = length-set c.pool.clones i vm ∙ hc;
          way = All-snoc c.pool.free_way num_vm_in_pool i hw hi;
          free = (
            omega (arith, length-append c.pool.free_way (i ∷ [])),
            omega (arith, length-append c.pool.free_way (i ∷ [])),
          );
        },
        refl,
      )

  -- the interpreter of the first free index
  unfoldable pub first_vm : Compiled js → Vm
  first_vm c = elim c.pool.free_way [
    | [] ↦ c.pool.root
    | i ∷ _ ↦ elim (get_elem? c.pool.clones i) [ none ↦ c.pool.root | some vm ↦ vm ]
  ]

  first_vm_lem :
      (c : Compiled js) (i : ℕ) (rest : List ℕ) (vm : Vm)
      → c.pool.free_way ≡ i ∷ rest
      → get_elem? c.pool.clones i ≡ some vm
      → first_vm c ≡ vm
  unfolding first_vm
  first_vm_lem c i rest vm e f = rw (e, first_vm) (rw (f) refl)

  -- how the program ends on the bound arguments, with a new context; `none` where it never does
  unfoldable pub ran : R → List String → Compiled js → Option ((Vm × (R × Context)) × Ending Value)
  ran r args c = evaluate js c r (bind_args c.args args (js.set_globals (first_vm c) r))

  compiled_run-released :
      (r : R) (args : List String) (c : Compiled js) (i : ℕ) (rest : List ℕ) (vm : Vm)
      → c.argc ≡ length c.args
      → c.pool.free_way ≡ i ∷ rest
      → get_elem? c.pool.clones i ≡ some vm
      → compiled_run js r args c ≡ elim (ran r args c) [
        | none ↦ none
        | some out ↦ released js i (record c { pool = record c.pool { free_way = rest } }) out
      ]
  unfolding compiled_run get_vm ran
  compiled_run-released r args c i rest vm ha e f =
      let bound = bind_args_lem c.args args (js.set_globals vm r) in
      let first = first_vm_lem c i rest vm e f in ground (arith, bound, first)

  -- Where the interpreter of the first free index comes to an end on the bound arguments, by a
  -- value, an error or a panic, a run of a ready oracle comes to its end: it ends with what
  -- becomes of that ending, a panic of the export or of the marshalling included, and leaves the
  -- oracle ready and its program as it was: the interpreter is back in the pool.
  pub compiled_run_lem :
      (r : R) (args : List String) (c : Compiled js) (out : (Vm × (R × Context)) × Ending Value)
      → IsReady c
      → ran r args c ≡ some out
      → (c' : Compiled js) × (compiled_run js r args c
          ≡ some (c', out.0.1.0, result js out.0.1.1 out.1))
        × IsReady c'
        × (program c' ≡ program c)
  unfolding program
  compiled_run_lem r args c out h ended = elim (List-cases c.pool.free_way) [
    | inl e ↦ absurd (omega (arith, h.free, ap length e))
    | inr (i, rest, e) ↦
        let way = subst (All (λ j. j < num_vm_in_pool)) e h.way in
        let (vm, at, _) = get_elem?-drop i c.pool.clones (omega (arith, way.0, h.clones)) in
        let (c', done, ready, same) =
          released_lem i (record c { pool = record c.pool { free_way = rest } }) out way.0 h.argc
            h.clones way.1 (omega (arith, h.free, ap length e)) in
        (c', compiled_run-released r args c i rest vm h.argc e at ∙ rw (ended) done, ready, same)
  ]
