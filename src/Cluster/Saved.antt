-- ===== src/Cluster/Saved.antt =====
-- What main of cmd/sumcluster has started and saved when it starts the master.
use mathlib.Core.List.{append-nil, append_assoc}
use sum.Prelude.{
  ℕ, zero, suc, ◌+◌, ◌≡◌, ◌∙◌, sym, ap, refl, inl, inr, String, List, [], ◌∷◌, ◌++◌, arith,
}
use sum.Prelude.Tests.{ok, ◌◇◌, Option-cases, Result-cases}
use sum.Prelude.Lists.{length, set, length-append}
use sum.Prelude.Decimal.{format_uint}
use sum.Master.Network.{Network, NodeConfig}
use sum.Master.Configuration.{load_config}
use sum.Master.Configuration.Stored.{FileLaws}
use sum.Cluster.{
  Flags, Host, Cluster, Status, done, panicked, fatal, waiting, nodes_wanted, blanks, node_address,
  node_args, check_datapath, run_node, spawn_nodes, wait_all, save, panicked_by, waited,
  spawned_all, prepare,
}

-- the nodes on the ports from that of the index `idx` on
unfoldable pub nodes_from : Flags → ℕ → ℕ → List NodeConfig
nodes_from flags zero idx = []
nodes_from flags (suc n) idx =
    record {
      address = "localhost:" ◇ format_uint (flags.base_port + idx);
      cert_file = flags.cert_path;
    }
    ∷ nodes_from flags n (suc idx)

-- the arguments by which the nodes of a list are to be started: each listens on its address, and has
-- the data path of its place, counted from `idx` on
unfoldable pub args_of : Flags → ℕ → List NodeConfig → List (List String)
args_of flags idx [] = []
args_of flags idx (node ∷ nodes) =
    ("-listen"
      ∷ node.address
      ∷ "-datapath"
      ∷ flags.data_path idx
      ∷ "-creds"
      ∷ flags.cert_dir
      ∷ "-max-msg-size"
      ∷ format_uint flags.max_msg_size
      ∷ [])
    ∷ args_of flags (suc idx) nodes

set-append :
    {A : Type 0} (pre rest : List A) (x v : A)
    → set (pre ++ x ∷ rest) (length pre) v ≡ pre ++ v ∷ rest
set-append [] rest x v = refl
set-append (p ∷ pre) rest x v = ap (◌∷◌ p) (set-append pre rest x v)

module _ {W : Type 0} (host : Host W) (flags : Flags) where
  node_at : ℕ → NodeConfig
  node_at idx = record { address = node_address flags idx; cert_file = flags.cert_path }

  set-blank :
      (n idx : ℕ) (pre nodes : List NodeConfig)
      → idx ≡ length pre
      → nodes ≡ pre ++ blanks (suc n)
      → set nodes idx (node_at idx) ≡ (pre ++ node_at idx ∷ []) ++ blanks n
  unfolding blanks
  set-blank n idx pre nodes i e =
      rw (e, i)
        (set-append pre (blanks n) (record { address = ""; cert_file = "" }) (node_at (length pre))
          ∙ sym (append_assoc pre (node_at (length pre) ∷ []) (blanks n)))

  pub spawn_nodes_lem :
      (n idx : ℕ) (pre : List NodeConfig) (c out : Cluster W)
      → idx ≡ length pre
      → c.nodes ≡ pre ++ blanks n
      → spawn_nodes host flags n idx c ≡ (out, done)
      → (out.nodes ≡ pre ++ nodes_from flags n idx)
        × (out.spawned ≡ c.spawned ++ args_of flags idx (nodes_from flags n idx))
  unfolding spawn_nodes blanks nodes_from args_of run_node node_at node_args node_address
  spawn_nodes_lem zero idx pre c out i start end =
      let same : c ≡ out = ap (λ r. r.0) end in
      (
        ap (λ (k : Cluster W). k.nodes) (sym same) ∙ start,
        ap (λ (k : Cluster W). k.spawned) (sym same) ∙ sym (append-nil c.spawned),
      )
  spawn_nodes_lem (suc n) idx pre c out i start end =
      elim (Option-cases (check_datapath host flags (flags.data_path idx) c.world).1) [
        | inr (x, e) ↦ absurd (ground (arith, rw (spawn_nodes, e) at end))
        | inl e ↦
            let w1 = (check_datapath host flags (flags.data_path idx) c.world).0 in
            let (all, args) =
              spawn_nodes_lem n (suc idx) (pre ++ node_at idx ∷ [])
                (run_node host flags idx (record c { world = w1 })) out
                (omega (arith, length-append pre (node_at idx ∷ [])))
                (set-blank n idx pre c.nodes i start) (rw (spawn_nodes, e) at end) in
            (
              all ∙ append_assoc pre (node_at idx ∷ []) (nodes_from flags n (suc idx)),
              args
                  ∙ append_assoc c.spawned (node_args flags idx ∷ [])
                      (args_of flags (suc idx) (nodes_from flags n (suc idx))),
            )
      ]

module _ {W B : Type 0} (net : Network W B) (host : Host W) (flags : Flags) where
  save-done :
      FileLaws net
      → (nodes : List NodeConfig) (w : W) → (save net host flags nodes w).1 ≡ done
      → load_config net flags.master_file (save net host flags nodes w).0
        ≡ ok (record { nodes = nodes })
  unfolding save panicked_by load_config
  save-done laws nodes w e = elim (Result-cases (net.marshal_config (record { nodes = nodes }))) [
    | inr (x, m) ↦ absurd (ground (arith, rw (save, m) at e))
    | inl (js, m) ↦ elim (Option-cases (net.write_file flags.master_file js w).1) [
      | inr (x, f) ↦ absurd (ground (arith, rw (save, m, panicked_by, f) at e))
      | inl f ↦
          rw (save, m, load_config, laws.read-write flags.master_file js w f)
            (laws.unmarshal-marshal (record { nodes = nodes }) js m)
    ]
  ]

  -- what was started and what the file holds, where all went well
  Saved : Cluster W → Cluster W → Type 0
  Saved before c =
      (load_config net flags.master_file c.world ≡ ok (record { nodes = before.nodes }))
      × (c.spawned ≡ before.spawned)

  waited-Saved :
      FileLaws net
      → (before : Cluster W) (out : W × Status) → (waited net host flags before out).1 ≡ done
      → Saved before (waited net host flags before out).0
  unfolding waited Saved
  waited-Saved laws before (w, done) e = (save-done laws before.nodes w e, refl)
  waited-Saved laws before (w, panicked x) e = absurd (ground arith)
  waited-Saved laws before (w, fatal x) e = absurd (ground arith)
  waited-Saved laws before (w, waiting) e = absurd (ground arith)

  spawned_all-Saved :
      FileLaws net
      → (fuel : ℕ) (out : Cluster W × Status) → (spawned_all net host flags fuel out).1 ≡ done
      → Saved out.0 (spawned_all net host flags fuel out).0 × (out.1 ≡ done)
  unfolding spawned_all
  spawned_all-Saved laws fuel (c, done) e =
      (waited-Saved laws c (wait_all net host flags fuel c.nodes c.world) e, refl)
  spawned_all-Saved laws fuel (c, panicked x) e = absurd (ground arith)
  spawned_all-Saved laws fuel (c, fatal x) e = absurd (ground arith)
  spawned_all-Saved laws fuel (c, waiting) e = absurd (ground arith)

  -- Where main comes to start the master, over a file system and json that give back what was
  -- written, LoadConfig reads from the file of the master the address and the certificate of each
  -- node wanted, that of the index i at the port i after the base port, in this order, and just
  -- these nodes were started, each to listen on its address and with the data path of its index.
  pub prepare-done :
      (laws : FileLaws net) (fuel : ℕ) (w : W)
      → (prepare net host flags fuel w).1 ≡ done
      → (load_config net flags.master_file (prepare net host flags fuel w).0.world
          ≡ ok (record { nodes = nodes_from flags (nodes_wanted flags) 0 }))
        × ((prepare net host flags fuel w).0.spawned
            ≡ args_of flags 0 (nodes_from flags (nodes_wanted flags) 0))
  unfolding prepare Saved
  prepare-done laws fuel w e =
      let begun : Cluster W = record {
        world = w;
        nodes = blanks (nodes_wanted flags);
        spawned = [];
      } in
      let out = spawn_nodes host flags (nodes_wanted flags) 0 begun in
      let ((loaded, started), went) = spawned_all-Saved laws fuel out e in
      let (all, args) =
        spawn_nodes_lem host flags (nodes_wanted flags) 0 [] begun out.0 refl refl
          (ap (λ s. (out.0, s)) went) in
      (loaded ∙ ap (λ l. ok (record { nodes = l })) all, started ∙ args)
