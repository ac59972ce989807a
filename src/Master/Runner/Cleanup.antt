-- ===== src/Master/Runner/Cleanup.antt =====
-- The temporary oracles of Run (master/mux_runner.go).
use mathlib.Core.List.{Memᴰ}
use sum.Prelude.{
  ℕ, ◌≡◌, ◌∙◌, sym, ap, subst, refl, inl, inr, String, true, false, arith, List, [], ◌∷◌, ◌++◌,
}
use sum.Prelude.Tests.{ok, err, ◌◇◌, ◌==◌, string_eq, Result-cases, Option-cases}
use sum.Prelude.Decimal.{parse_uint}
use sum.Proto.{Oracle, OracleResponse, Call, CallResponse}
use sum.Node.Run.Outcome.{List-cases}
use sum.Node.Interpreter.{returned}
use sum.Master.Network.{Network}
use sum.Master.Replies.{settled, oracle_response, call_response}
use sum.Master.Raccoon.{Parser, AstRaccoon}
use sum.Master.State.{NodeInfo, Service, numbered}
use sum.Master.Parallel.{run_workers, errors_of, do_parallel, do_parallel_some}
use sum.Master.Records.Reads.{IsFair, numbered_mem}
use sum.Master.Merger.{Value, MergerVm, merge, call_merger}
use sum.Master.Runner.{
  Runtime, Deployment, report, run_created, worker, delete_temporary, delete_created, clean_up,
  run_deferred, cancel, collected, deploy,
}

-- A node has stored each oracle whose creation it answers with success, and an answer without success has
-- a text. A node keeps an oracle while others are created, oracles are run and results are merged, and
-- a call on a cancelled context does not reach any node.
pub record StoreLaws {W B J : Type 0} (net : Network W B) (vm : MergerVm W J)
    (Has : ℕ → Oracle → W → Type 0) : Type 0 where
  pub creates :
      (c : ℕ) (o : Oracle) (w : W) (resp : OracleResponse)
      → settled (net.create_oracle c o w).1 ≡ ok resp
      → Has c o (net.create_oracle c o w).0
  pub speaks :
      (c : ℕ) (o : Oracle) (w : W) (e : String)
      → settled (net.create_oracle c o w).1 ≡ err e
      → (e == "") ≡ false
  pub create_keeps :
      (c c' : ℕ) (o o' : Oracle) (w : W) → Has c o w → Has c o (net.create_oracle c' o' w).0
  pub run_keeps :
      (c c' : ℕ) (o : Oracle) (call : Call) (w : W) → Has c o w → Has c o (net.run c' call w).0
  pub not_sent : (c id : ℕ) (w : W) → (net.cancelled_delete_oracle c id w).0 ≡ w
  pub results_keep :
      (c : ℕ) (o : Oracle) (p : String) (l : List (Value J)) (w : W)
      → Has c o w
      → Has c o (vm.set_results p l w).0
  pub context_keeps : (c : ℕ) (o : Oracle) (w : W) → Has c o w → Has c o (vm.set_context w).0
  pub merger_keeps :
      (c : ℕ) (o : Oracle) (code : String) (w : W) → Has c o w → Has c o (vm.run code w).0.0

append-empty : {A : Type 0} (xs ys : List A) → xs ++ ys ≡ [] → (xs ≡ []) × (ys ≡ [])
append-empty [] ys e = (refl, e)
append-empty (x ∷ xs) ys e = absurd (cc e)

module _ {W B J : Type 0} (net : Network W B) (rt : Runtime W B J) (Has : ℕ → Oracle → W → Type 0)
    (laws : StoreLaws net rt.vm Has) where
  -- a cleanup on a cancelled context leaves the nodes as they are
  delete_created_cancelled :
      (created : List (NodeInfo × ℕ)) (w : W) → delete_created net rt true created w ≡ w
  unfolding delete_created delete_temporary
  delete_created_cancelled [] w = refl
  delete_created_cancelled ((n, oracle_id) ∷ created) w =
      delete_created_cancelled created _ ∙ laws.not_sent n.connection oracle_id w

  run_deferred_lem : (d : Deployment) (w : W) → run_deferred net rt d w ≡ w
  unfolding run_deferred clean_up cancel
  run_deferred_lem d w = delete_created_cancelled d.created w

  -- what a worker leaves, where an oracle is stored once its creation has been asked for
  worker_after :
      (c : ℕ) (o oracle : Oracle) (args : List String) (i : ℕ) (n : NodeInfo) (d : Deployment)
      (w : W)
      → Has c o (net.create_oracle n.connection oracle w).0
      → Has c o (worker net rt oracle args (i, n) (d, w)).0.1
  unfolding worker run_created
  worker_after c o oracle args i n d w h =
      elim (Result-cases (settled (net.create_oracle n.connection oracle w).1)) [
        | inr (e, f) ↦ rw (f, worker) h
        | inl (resp, f) ↦ elim (Option-cases (parse_uint resp.msg)) [
          | inl g ↦ rw (f, worker, g) h
          | inr (oracle_id, g) ↦ rw (f, worker, g) (laws.run_keeps c n.connection o _ _ h)
        ]
      ]

  workers_keep :
      (c : ℕ) (o oracle : Oracle) (args : List String) (nodes : List (ℕ × NodeInfo))
      (dw : Deployment × W)
      → Has c o dw.1
      → Has c o (run_workers (worker net rt oracle args) nodes dw).0.1
  unfolding run_workers
  workers_keep c o oracle args [] dw h = h
  workers_keep c o oracle args ((i, n) ∷ nodes) dw h =
      workers_keep c o oracle args nodes (worker net rt oracle args (i, n) dw).0 (
        worker_after c o oracle args i n dw.0 dw.1
          (laws.create_keeps c n.connection o oracle dw.1 h))

  -- a worker that sends no error has its oracle stored
  worker_stores :
      (oracle : Oracle) (args : List String) (i : ℕ) (n : NodeInfo) (d : Deployment) (w : W)
      → errors_of (worker net rt oracle args (i, n) (d, w)).1 ≡ []
      → Has n.connection oracle (worker net rt oracle args (i, n) (d, w)).0.1
  unfolding worker report errors_of
  worker_stores oracle args i n d w quiet =
      elim (Result-cases (settled (net.create_oracle n.connection oracle w).1)) [
        | inr (e, f) ↦
            absurd (
              ground
                (arith, rw (worker, f, report, laws.speaks n.connection oracle w e f) at quiet))
        | inl (resp, f) ↦
            worker_after n.connection oracle oracle args i n d w
              (laws.creates n.connection oracle w resp f)
      ]

  workers_create :
      (oracle : Oracle) (args : List String) (i : ℕ) (n : NodeInfo) (nodes : List (ℕ × NodeInfo))
      (dw : Deployment × W)
      → Memᴰ (i, n) nodes
      → (run_workers (worker net rt oracle args) nodes dw).1.1 ≡ []
      → Has n.connection oracle (run_workers (worker net rt oracle args) nodes dw).0.1
  unfolding run_workers
  workers_create oracle args i n [] dw p quiet = elim p [ ]
  workers_create oracle args i n (m ∷ nodes) dw (Memᴰ.head e) quiet =
      let first = worker net rt oracle args m dw in
      let (own, _) = append-empty (errors_of first.1) _ quiet in
      workers_keep n.connection oracle oracle args nodes first.0 (
        subst (λ (k : ℕ × NodeInfo). Has n.connection oracle (worker net rt oracle args k dw).0.1) e
          (worker_stores oracle args i n dw.0 dw.1 (
            subst (λ (k : ℕ × NodeInfo). errors_of (worker net rt oracle args k dw).1 ≡ []) (sym e)
              own)))
  workers_create oracle args i n (m ∷ nodes) dw (Memᴰ.tail p) quiet =
      let first = worker net rt oracle args m dw in
      let (_, others) = append-empty (errors_of first.1) _ quiet in
      workers_create oracle args i n nodes first.0 p others

  merger_keeps_all :
      (c : ℕ) (o : Oracle) (src name parameter : String) (results : List (Value J)) (w : W)
      → Has c o w
      → Has c o (call_merger rt.vm src name parameter results w).0
  unfolding call_merger
  merger_keeps_all c o src name parameter results w h =
      let w1 = (rt.vm.set_results parameter results w).0 in
      let w2 = (rt.vm.set_context w1).0 in
      let h1 = laws.results_keep c o parameter results w h in
      let h2 = laws.context_keeps c o w1 h1 in
      let h3 = laws.merger_keeps c o (src ◇ "\n" ◇ name ◇ "(" ◇ parameter ◇ ")") w2 h2 in
      elim (Option-cases (rt.vm.set_results parameter results w).1) [
        | inr (e, f) ↦ rw (f, call_merger) h1
        | inl f ↦ elim (Option-cases (rt.vm.set_context w1).1) [
          | inr (e, g) ↦ rw (f, g, call_merger) h2
          | inl g ↦ rw (f, g, call_merger) h3
        ]
      ]

  merge_keeps :
      {js : Parser} (c : ℕ) (o : Oracle) (a : AstRaccoon js) (results : List (Value J)) (w : W)
      → Has c o w
      → Has c o (merge rt.vm a results w).0
  unfolding merge
  merge_keeps c o a results w h = elim (Option-cases a.merger_function) [
    | inl e ↦ rw (e, merge) h
    | inr (f, e) ↦ elim (List-cases f.parameters) [
      | inl g ↦ rw (e, merge, g) h
      | inr (p, ps, g) ↦ rw (e, merge, g) (merger_keeps_all c o a.src f.name p results w h)
    ]
  ]

  collected_keeps :
      {js : Parser} (c : ℕ) (o : Oracle) (a : AstRaccoon js)
      (gathered : List (Value J) × List String) (w : W)
      → Has c o w
      → Has c o (collected net rt a gathered w).0
  unfolding collected
  collected_keeps c o a (results, e ∷ errs) w h = h
  collected_keeps c o a (results, []) w h = merge_keeps c o a results w h

  no_errors :
      {js : Parser} (a : AstRaccoon js) (results : List (Value J)) (errs : List String) (w : W)
      (resp : CallResponse B)
      → (collected net rt a (results, errs) w).1 ≡ returned resp
      → resp.success ≡ true
      → errs ≡ []
  unfolding collected
  no_errors a results [] w resp h k = refl
  no_errors a results (e ∷ errs) w resp h k = ground (arith, h, k)

  -- Where every goroutine runs, over nodes that have stored an oracle once they answer its
  -- creation with success, that give a text with a failure, and that keep the oracle while others
  -- are created, oracles are run and results are merged, and where a call on a cancelled context
  -- reaches no node, the cleanup of Run removes nothing: a successful Run of a patched oracle
  -- leaves each node of the master with the patched oracle.
  pub deploy_leaves :
      {js : Parser} (a : AstRaccoon js) (new_code : String) (args : List String) (s : Service js)
      (w : W) (n : NodeInfo) (resp : CallResponse B)
      → IsFair net
      → Memᴰ n s.nodes
      → (deploy net rt a new_code args (s, w)).1 ≡ returned resp
      → resp.success ≡ true
      → Has n.connection
          (record { id = 0; name = a.name; code = new_code })
          (deploy net rt a new_code args (s, w)).0.1
  unfolding deploy
  deploy_leaves a new_code args s w n resp fair p answered good =
      let oracle : Oracle = record { id = 0; name = a.name; code = new_code } in
      let all = numbered 0 s.nodes in
      let begun : Deployment = record { created = []; cancelled = false } in
      let out = do_parallel net (worker net rt oracle args) all (begun, w) in
      let quiet = no_errors a out.1.0 out.1.1 out.0.1 resp answered good in
      let (i, q) = numbered_mem 0 n s.nodes p in
      let ran = do_parallel_some net (worker net rt oracle args) (i, n) all begun w q in
      let stored : Has n.connection oracle out.0.1 =
        subst
          (λ (r : (Deployment × W) × (List (Value J) × List String)). Has n.connection oracle r.0.1)
          (sym ran)
          (workers_create oracle args i n (net.schedule all w).1 (begun, (net.schedule all w).0)
            (fair.runs (i, n) all w q)
            (ap (λ (r : (Deployment × W) × (List (Value J) × List String)). r.1.1) (sym ran)
              ∙ quiet)) in
      rw (run_deferred_lem out.0.0 (collected net rt a out.1 out.0.1).0)
        (collected_keeps n.connection oracle a out.1 out.0.1 stored)
