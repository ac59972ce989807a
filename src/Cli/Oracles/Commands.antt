-- ===== src/Cli/Oracles/Commands.antt =====
-- OCREATE, OUPDATE and ODELETE of cmd/sumcli/handlers on a node that no other client changes.
use sum.Prelude.{ℕ, ◌≡◌, ◌≢◌, inl, inr, sym, ◌∙◌, String, some, List}
use sum.Prelude.Tests.{ok, nat_eq, string_eq, ◌==◌, ◌◇◌, Bool-cases}
use sum.Prelude.Map.{get}
use sum.Prelude.Decimal.{format_uint}
use sum.Proto.{Record, Oracle, OracleResponse}
use sum.Storage.Env.{Env}
use sum.Storage.Records.{Records}
use sum.Node.Interpreter.{Interpreter}
use sum.Node.Service.{Service}
use sum.Node.Service.Precompiled.{RangeLaws}
use sum.Node.Oracles
use sum.Node.Oracles.{keep_named, oracle_or, oracle_created, oracle_updated, oracle_deleted}
use sum.Cli.Console.{
  Ending, returned, failed, exited, panicked, Act, Console, Client, Tools, ◌>>=◌, ◌>>◌, pure, fail,
  deref, call, check, print, continue_with,
}
use sum.Cli.Console.Triples.{
  Triple, Post, bind-Triple, then-Triple, arg-Triple, try-Triple, print-Triple, check-Triple,
  call-Triple,
}
use sum.Cli.Oracles.{create_oracle, update_oracle, delete_oracle, check_free, check_other, taken}
use sum.Cli.Oracles.Naming.{IsUnique, IsFreeBut}
use sum.Cli.Records.{parse_id}
use sum.Cli.Oracles.Unique.{
  Answers, find_oracle-Answers, node_create-IsUnique, node_update-IsUnique, node_delete-IsUnique,
}

-- The connection to a node: every call gives what the node answers. The node iterates over its map in
-- an order of each time's own.
pub record Delivers {env : Env Record} {oenv : Env Oracle} {js : Interpreter (Records env)}
    {B : Type 0} (client : Client (Service oenv js) B) : Type 0 where
  pub order : String → Service oenv js → List (ℕ × Oracle) → List (ℕ × Oracle)
  pub order-RangeLaws : (name : String) (s : Service oenv js) → RangeLaws (order name s)
  pub find :
      (name : String) (s : Service oenv js)
      → client.find_oracle name s ≡ (s, ok (Oracles.find_oracle (order name s) name s))
  pub read :
      (id : ℕ) (s : Service oenv js) → client.read_oracle id s ≡ (s, ok (Oracles.read_oracle id s))
  pub create :
      (o : Oracle) (s : Service oenv js)
      → client.create_oracle o s ≡ ((Oracles.create_oracle o s).0, ok (Oracles.create_oracle o s).1)
  pub update :
      (o : Oracle) (s : Service oenv js)
      → client.update_oracle o s ≡ ((Oracles.update_oracle o s).0, ok (Oracles.update_oracle o s).1)
  pub delete :
      (id : ℕ) (s : Service oenv js)
      → client.delete_oracle id s
        ≡ ((Oracles.delete_oracle id s).0, ok (Oracles.delete_oracle id s).1)

-- the commands that change the oracles, with their arguments
pub data Command : Type 0 where
  ocreate oupdate odelete : List String → Command

module _ {W B : Type 0} (tools : Tools B) (client : Client W B) where
  -- the callback of a command
  unfoldable pub perform : Command → Act W (Unit {0})
  unfolding create_oracle update_oracle delete_oracle
  perform (ocreate args) = create_oracle tools client args
  perform (oupdate args) = update_oracle tools client args
  perform (odelete args) = delete_oracle tools client args

module _ {env : Env Record} {oenv : Env Oracle} {js : Interpreter (Records env)} {B : Type 0}
    (tools : Tools B) (client : Client (Service oenv js) B) (node : Delivers client) where
  -- the invariant of the node
  Held : Service oenv js → Type 0
  Held s = IsUnique s.oracles

  FoundFree : String → Service oenv js → Type 0
  FoundFree name s =
      IsUnique s.oracles × ((j : ℕ) (b : Oracle) → get j s.oracles.index ≡ some b → b.name ≢ name)

  FoundOther : ℕ → String → Service oenv js → Type 0
  FoundOther id name s = IsUnique s.oracles × IsFreeBut id name s.oracles.index

  same : (s : Service oenv js) → Held s → Held s
  same s h = h

  find-Triple :
      (name : String)
      → Triple Held Held (call (client.find_oracle name)) (λ resp s. Held s × Answers name s resp)
  unfolding Held
  find-Triple name =
      call-Triple Held Held (λ resp s. Held s × Answers name s resp) (client.find_oracle name)
        (λ s. (s, Oracles.find_oracle (node.order name s) name s)) (node.find name)
        (λ s u. (u, find_oracle-Answers (node.order name s) name s (node.order-RangeLaws name s) u))

  check_free-Triple :
      (name : String) (resp : OracleResponse)
      → Triple Held (λ s. Held s × Answers name s resp) (check_free name resp) (λ _. FoundFree name)
  unfolding check_free Held FoundFree Answers Post pure taken fail deref ◌>>=◌
  check_free-Triple name resp = record {
    run = λ c (u, a). elim a [
      | inl (k, o, y, f, _, _) ↦ rw (check_free, y) (rw (deref, f) u)
      | inr (n, others) ↦ rw (check_free, n) (u, others)
    ];
  }

  only_there :
      (id k : ℕ) (name : String) (o : Oracle) (s : Service oenv js)
      → IsUnique s.oracles
      → get k s.oracles.index ≡ some o
      → o.name ≡ name
      → o.id ≡ id
      → IsFreeBut id name s.oracles.index
  only_there id k name o s u g n e j b p q =
      u.differ j k b o p g (q ∙ sym n) ∙ sym (u.valid.ids k o g) ∙ e

  check_other-Triple :
      (id : ℕ) (name : String) (resp : OracleResponse)
      → Triple Held
          (λ s. Held s × Answers name s resp)
          (check_other id name resp)
          (λ _. FoundOther id name)
  unfolding check_other Held FoundOther Answers Post pure taken fail deref ◌>>=◌ continue_with
  check_other-Triple id name resp = record {
    run = λ c (u, a). elim a [
      | inl (k, o, y, f, g, n) ↦
          rw (check_other, y)
            (rw (deref, f)
              (elim (Bool-cases (o.id == id)) [
                | inl b ↦
                    rw (b) (u, only_there id k name o c.world u g n ((nat_eq.means_eq o.id id).0 b))
                | inr b ↦ rw (b) u
              ]))
      | inr (n, others) ↦ rw (check_other, n) (u, λ j b p q. absurd (others j b p q))
    ];
  }

  parse-Triple : (s : String) → Triple Held Held (parse_id tools s) (λ _. Held)
  unfolding parse_id
  parse-Triple s = try-Triple Held Held same _

  -- `s` is printed when the call has succeeded
  settle-Triple :
      (resp : OracleResponse) (s : String)
      → Triple Held Held (check resp.success resp.msg >> print s) (λ _. Held)
  settle-Triple resp s =
      then-Triple Held Held (check-Triple Held Held same resp.success resp.msg)
        (print-Triple Held Held same s)

  create-Triple :
      (args : List String) → Triple Held Held (create_oracle tools client args) (λ _. Held)
  unfolding create_oracle Held FoundFree
  create-Triple args =
      bind-Triple Held (λ _. Held) (arg-Triple Held Held same args 0)
        (λ name.
          bind-Triple Held (λ _. Held) (arg-Triple Held Held same args 1)
            (λ path.
              bind-Triple Held (λ _. Held) (try-Triple Held Held same (tools.read_file path))
                (λ code.
                  bind-Triple Held (λ resp s. Held s × Answers name s resp) (find-Triple name)
                    (λ resp. then-Triple Held (FoundFree name) (check_free-Triple name resp) (
                      bind-Triple Held (λ _. Held)
                        (call-Triple Held (FoundFree name) (λ _. Held)
                          (client.create_oracle (record { id = 0; name = name; code = code }))
                          (Oracles.create_oracle (record { id = 0; name = name; code = code }))
                          (node.create (record { id = 0; name = name; code = code }))
                          (λ s (u, free).
                            node_create-IsUnique (record { id = 0; name = name; code = code }) s
                              free u))
                        (λ resp'. settle-Triple resp' _))))))

  read-Triple : (id : ℕ) → Triple Held Held (call (client.read_oracle id)) (λ _. Held)
  unfolding Held
  read-Triple id =
      call-Triple Held Held (λ _. Held) (client.read_oracle id) (λ s. (s, Oracles.read_oracle id s))
        (node.read id) (λ s u. u)

  -- the second half of OUPDATE
  renamed-Triple :
      (id : ℕ) (name code : String)
      → Triple Held Held
          (do
            resp ← call (client.find_oracle name)
            check_other id name resp
            resp' ← call (client.update_oracle (record { id = id; name = name; code = code }))
            check resp'.success resp'.msg
            print ("oracle " ◇ format_uint id ◇ " succesfully updated\n"))
          (λ _. Held)
  unfolding Held FoundOther
  renamed-Triple id name code =
      bind-Triple Held (λ resp s. Held s × Answers name s resp) (find-Triple name)
        (λ resp. then-Triple Held (FoundOther id name) (check_other-Triple id name resp) (
          bind-Triple Held (λ _. Held)
            (call-Triple Held (FoundOther id name) (λ _. Held)
              (client.update_oracle (record { id = id; name = name; code = code }))
              (Oracles.update_oracle (record { id = id; name = name; code = code }))
              (node.update (record { id = id; name = name; code = code }))
              (λ s (u, free).
                node_update-IsUnique (record { id = id; name = name; code = code }) s free u))
            (λ resp'. settle-Triple resp' _)))

  update-Triple :
      (args : List String) → Triple Held Held (update_oracle tools client args) (λ _. Held)
  unfolding update_oracle Held FoundOther
  update-Triple args =
      bind-Triple Held (λ _. Held) (arg-Triple Held Held same args 0)
        (λ text.
          bind-Triple Held (λ _. Held) (parse-Triple text)
            (λ id.
              bind-Triple Held (λ _. Held) (arg-Triple Held Held same args 1)
                (λ name.
                  bind-Triple Held (λ _. Held) (arg-Triple Held Held same args 2)
                    (λ path.
                      bind-Triple Held (λ _. Held)
                        (try-Triple Held Held same (tools.read_file path))
                        (λ code.
                          bind-Triple Held (λ _. Held) (read-Triple id)
                            (λ resp.
                              then-Triple Held Held
                                (check-Triple Held Held same resp.success resp.msg)
                                (renamed-Triple id name code)))))))

  delete-Triple :
      (args : List String) → Triple Held Held (delete_oracle tools client args) (λ _. Held)
  unfolding delete_oracle Held
  delete-Triple args =
      bind-Triple Held (λ _. Held) (arg-Triple Held Held same args 0)
        (λ text.
          bind-Triple Held (λ _. Held) (parse-Triple text)
            (λ id.
              bind-Triple Held (λ _. Held)
                (call-Triple Held Held (λ _. Held) (client.delete_oracle id)
                  (Oracles.delete_oracle id) (node.delete id) (λ s u. node_delete-IsUnique id s u))
                (λ resp. settle-Triple resp _)))

  Post-Held :
      (out : Console (Service oenv js) × Ending (Unit {0}))
      → Post Held (λ _. Held) out
      → IsUnique out.0.world.oracles
  unfolding Post Held
  Post-Held (c, returned a) h = h
  Post-Held (c, failed e) h = h
  Post-Held (c, exited n) h = h
  Post-Held (c, panicked p) h = h

  -- On a node that no other client changes meanwhile, OCREATE, OUPDATE and ODELETE, however they
  -- end, keep the identifiers in order and the names of the stored oracles different.
  pub perform-IsUnique :
      (command : Command) (c : Console (Service oenv js))
      → IsUnique c.world.oracles
      → IsUnique (perform tools client command c).0.world.oracles
  unfolding perform Held
  perform-IsUnique (ocreate args) c u = Post-Held _ ((create-Triple args).run c u)
  perform-IsUnique (oupdate args) c u = Post-Held _ ((update-Triple args).run c u)
  perform-IsUnique (odelete args) c u = Post-Held _ ((delete-Triple args).run c u)
