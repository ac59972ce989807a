-- ===== src/Cluster/Ready.antt =====
-- When main of cmd/sumcluster comes to start the master.
use sum.Prelude.{
  ℕ, zero, suc, ◌+◌, ◌≡◌, ap, sym, subst, refl, inl, inr, String, Option, none, some, List, [], ◌∷◌,
  arith,
}
use sum.Prelude.Tests.{ok, ◌◇◌, Bool-cases, Result-cases}
use sum.Prelude.Lists.{All}
use sum.Prelude.Decimal.{format_uint}
use sum.Cluster.Saved.{nodes_from, spawn_nodes_lem}
use sum.Master.Network.{Network, NodeConfig, Config}
use sum.Cluster.{
  Flags, Host, Cluster, Status, done, panicked, fatal, waiting, Check, is_ready, not_ready, stopped,
  nodes_wanted, blanks, check_paths, check_datapath, run_node, node_args, node_address, spawn_nodes,
  check_client, polled, wait_client, wait_all, save, panicked_by, waited, spawned_all, prepare,
}

module _ {W B : Type 0} (net : Network W B) (host : Host W) (flags : Flags) where
  -- from a world on, a node answers one of the next polls
  pub data Answers (addr : String) : ℕ → W → Type 0 where
    at_once :
        {n : ℕ} {w : W} → (check_client net host flags addr w).1 ≡ is_ready → Answers addr (suc n) w
    later :
        {n : ℕ} {w : W} {e : String}
        → (check_client net host flags addr w).1 ≡ not_ready e
        → Answers addr n (check_client net host flags addr w).0
        → Answers addr (suc n) w

  polled-ready :
      (again : W → W × Status) (out : W × Check)
      → out.1 ≡ is_ready
      → (polled net host flags again out).1 ≡ done
  unfolding polled
  polled-ready again (w, is_ready) e = refl
  polled-ready again (w, not_ready x) e = absurd (ground arith)
  polled-ready again (w, stopped x) e = absurd (ground arith)

  polled-later :
      (again : W → W × Status) (out : W × Check) (x : String)
      → out.1 ≡ not_ready x
      → polled net host flags again out ≡ again out.0
  unfolding polled
  polled-later again (w, is_ready) x e = absurd (ground arith)
  polled-later again (w, not_ready y) x e = refl
  polled-later again (w, stopped y) x e = absurd (ground arith)

  wait_client-done :
      (addr : String) {n : ℕ} {w : W}
      → Answers addr n w
      → (wait_client net host flags n addr w).1 ≡ done
  unfolding wait_client
  wait_client-done addr (at_once {n} {w} e) =
      polled-ready (wait_client net host flags n addr) (check_client net host flags addr w) e
  wait_client-done addr (later {n} {w} {e = x} e rest) =
      rw (polled-later (wait_client net host flags n addr) (check_client net host flags addr w) x e)
        (wait_client-done addr rest)

  -- A machine where folders can be made, and json and the file of the master can be written. A sumd that
  -- is started is up at the address after `-listen`, whatever is done to the folders, started beside
  -- it, dialled or asked, and a node that is up answers one of the next `fuel` polls.
  pub record HostLaws (fuel : ℕ) (Up : String → W → Type 0) : Type 0 where
    pub mkdir_all : (p : String) (w : W) → (host.mkdir_all p w).1 ≡ none
    pub marshal : (c : Config) → (text : String) × (net.marshal_config c ≡ ok text)
    pub write : (text : String) (w : W) → (net.write_file flags.master_file text w).1 ≡ none
    pub starts :
        (addr : String) (rest : List String) (w : W)
        → Up addr (host.start "sumd" ("-listen" ∷ addr ∷ rest) w)
    pub start_keeps :
        (addr name : String) (args : List String) (w : W)
        → Up addr w
        → Up addr (host.start name args w)
    pub mkdir_keeps : (addr p : String) (w : W) → Up addr w → Up addr (host.mkdir_all p w).0
    pub dial_keeps :
        (addr a : String) (creds : Option String) (w : W)
        → Up addr w
        → Up addr (net.dial a creds w).0
    pub info_keeps : (addr : String) (c : ℕ) (w : W) → Up addr w → Up addr (net.info c w).0
    pub answers : (addr : String) (w : W) → Up addr w → Answers addr fuel w

  module _ (fuel : ℕ) (Up : String → W → Type 0) (laws : HostLaws fuel Up) where
    check_client_keeps :
        (addr a : String) (w : W) → Up addr w → Up addr (check_client net host flags a w).0
    unfolding check_client
    check_client_keeps addr a w h = elim (Result-cases (net.load_credentials flags.cert_path w)) [
      | inr (e, f) ↦ rw (f, check_client) h
      | inl (creds, f) ↦
          let up = laws.dial_keeps addr a (some creds) w h in
          elim (Result-cases (net.dial a (some creds) w).1) [
            | inr (e, g) ↦ rw (f, g, check_client) up
            | inl (c, g) ↦
                let up' = laws.info_keeps addr c (net.dial a (some creds) w).0 up in
                elim (Result-cases (net.info c (net.dial a (some creds) w).0).1) [
                  | inr (e, k) ↦ rw (f, g, k, check_client) up'
                  | inl (r, k) ↦ rw (f, g, k, check_client) up'
                ]
          ]
    ]

    polled_keeps :
        (addr : String) (again : W → W × Status) (out : W × Check)
        → ((w : W) → Up addr w → Up addr (again w).0)
        → Up addr out.0
        → Up addr (polled net host flags again out).0
    unfolding polled
    polled_keeps addr again (w, is_ready) k h = h
    polled_keeps addr again (w, not_ready x) k h = k w h
    polled_keeps addr again (w, stopped x) k h = h

    wait_client_keeps :
        (addr a : String) (n : ℕ) (w : W) → Up addr w → Up addr (wait_client net host flags n a w).0
    unfolding wait_client
    wait_client_keeps addr a zero w h = h
    wait_client_keeps addr a (suc n) w h =
        polled_keeps addr (wait_client net host flags n a) (check_client net host flags a w)
          (wait_client_keeps addr a n) (check_client_keeps addr a w h)

    -- the nodes of the list are up
    abbrev AreUp : List NodeConfig → W → Type 0
    AreUp nodes w = All (λ (n : NodeConfig). Up n.address w) nodes

    AreUp-map :
        (nodes : List NodeConfig) (w w' : W)
        → ((addr : String) → Up addr w → Up addr w')
        → AreUp nodes w
        → AreUp nodes w'
    AreUp-map [] w w' k h = tt
    AreUp-map (n ∷ rest) w w' k h = (k n.address h.0, AreUp-map rest w w' k h.1)

    wait_all-done :
        (nodes : List NodeConfig) (w : W)
        → AreUp nodes w
        → (wait_all net host flags fuel nodes w).1 ≡ done
    unfolding wait_all
    wait_all-done [] w h = refl
    wait_all-done (n ∷ rest) w h =
        let w1 = (wait_client net host flags fuel n.address w).0 in
        rw (wait_all, wait_client-done n.address (laws.answers n.address w h.0))
          (wait_all-done rest w1
            (AreUp-map rest w w1 (λ addr. wait_client_keeps addr n.address fuel w) h.1))

    check_paths-none : (paths : List String) (w : W) → (check_paths host flags paths w).1 ≡ none
    unfolding check_paths
    check_paths-none [] w = refl
    check_paths-none (p ∷ rest) w = elim (Bool-cases (host.is_missing p w)) [
      | inl e ↦
          rw (check_paths, e, laws.mkdir_all p w) (check_paths-none rest (host.mkdir_all p w).0)
      | inr e ↦ rw (check_paths, e) (check_paths-none rest w)
    ]

    check_paths_keeps :
        (addr : String) (paths : List String) (w : W)
        → Up addr w
        → Up addr (check_paths host flags paths w).0
    unfolding check_paths
    check_paths_keeps addr [] w h = h
    check_paths_keeps addr (p ∷ rest) w h = elim (Bool-cases (host.is_missing p w)) [
      | inl e ↦
          rw (check_paths, e, laws.mkdir_all p w)
            (check_paths_keeps addr rest (host.mkdir_all p w).0 (laws.mkdir_keeps addr p w h))
      | inr e ↦ rw (check_paths, e) (check_paths_keeps addr rest w h)
    ]

    -- the world when the node of the index is started
    abbrev before_node : ℕ → W → W
    before_node idx w = (check_datapath host flags (flags.data_path idx) w).0

    spawn_nodes_step :
        (n idx : ℕ) (c : Cluster W)
        → spawn_nodes host flags (suc n) idx c
          ≡ spawn_nodes host flags n
              (suc idx)
              (run_node host flags idx (record c { world = before_node idx c.world }))
    unfolding spawn_nodes check_datapath
    spawn_nodes_step n idx c =
        rw
          (
            spawn_nodes,
            check_datapath,
            check_paths-none
                (flags.data_path idx
                  ∷ (flags.data_path idx ◇ "/oracles")
                  ∷ (flags.data_path idx ◇ "/data")
                  ∷ [])
                c.world,
          )
          refl

    spawn_nodes_keeps :
        (addr : String) (n idx : ℕ) (c : Cluster W)
        → Up addr c.world
        → Up addr (spawn_nodes host flags n idx c).0.world
    unfolding spawn_nodes run_node check_datapath
    spawn_nodes_keeps addr zero idx c h = h
    spawn_nodes_keeps addr (suc n) idx c h =
        let c1 = run_node host flags idx (record c { world = before_node idx c.world }) in
        let paths =
          flags.data_path idx
          ∷ (flags.data_path idx ◇ "/oracles")
          ∷ (flags.data_path idx ◇ "/data")
          ∷ [] in
        rw (spawn_nodes_step n idx c) (
          spawn_nodes_keeps addr n (suc idx) c1 (
            laws.start_keeps addr "sumd" (node_args flags idx) (before_node idx c.world)
              (check_paths_keeps addr paths c.world h)))

    spawn_nodes-done : (n idx : ℕ) (c : Cluster W) → (spawn_nodes host flags n idx c).1 ≡ done
    unfolding spawn_nodes
    spawn_nodes-done zero idx c = refl
    spawn_nodes-done (suc n) idx c = rw (spawn_nodes_step n idx c) (spawn_nodes-done n (suc idx) _)

    spawn_nodes-AreUp :
        (n idx : ℕ) (c : Cluster W)
        → AreUp (nodes_from flags n idx) (spawn_nodes host flags n idx c).0.world
    unfolding nodes_from run_node node_args node_address
    spawn_nodes-AreUp zero idx c = tt
    spawn_nodes-AreUp (suc n) idx c =
        let c1 = run_node host flags idx (record c { world = before_node idx c.world }) in
        subst (λ (r : Cluster W × Status). AreUp (nodes_from flags (suc n) idx) r.0.world)
          (sym (spawn_nodes_step n idx c))
          (
            spawn_nodes_keeps ("localhost:" ◇ format_uint (flags.base_port + idx)) n (suc idx) c1
                (laws.starts ("localhost:" ◇ format_uint (flags.base_port + idx)) _ _),
            spawn_nodes-AreUp n (suc idx) c1,
          )

    save-done : (nodes : List NodeConfig) (w : W) → (save net host flags nodes w).1 ≡ done
    unfolding save panicked_by
    save-done nodes w =
        let (text, e) = laws.marshal (record { nodes = nodes }) in
        rw (save, e, laws.write text w) refl

    waited-done :
        (c : Cluster W) (out : W × Status) → out.1 ≡ done → (waited net host flags c out).1 ≡ done
    unfolding waited
    waited-done c (w, done) e = save-done c.nodes w
    waited-done c (w, panicked x) e = absurd (ground arith)
    waited-done c (w, fatal x) e = absurd (ground arith)
    waited-done c (w, waiting) e = absurd (ground arith)

    spawned_all-done :
        (out : Cluster W × Status)
        → out.1 ≡ done
        → AreUp out.0.nodes out.0.world
        → (spawned_all net host flags fuel out).1 ≡ done
    unfolding spawned_all
    spawned_all-done (c, done) e h =
        waited-done c (wait_all net host flags fuel c.nodes c.world)
          (wait_all-done c.nodes c.world h)
    spawned_all-done (c, panicked x) e h = absurd (ground arith)
    spawned_all-done (c, fatal x) e h = absurd (ground arith)
    spawned_all-done (c, waiting) e h = absurd (ground arith)

    -- On a machine where folders can be made and the file of the master can be written, where a
    -- sumd that is started to listen on an address is up there and stays so whatever main does
    -- before that, and where a node that is up answers one of the polls, main comes to start the
    -- master.
    pub prepare-comes : (w : W) → (prepare net host flags fuel w).1 ≡ done
    unfolding prepare
    prepare-comes w =
        let begun : Cluster W = record {
          world = w;
          nodes = blanks (nodes_wanted flags);
          spawned = [];
        } in
        let out = spawn_nodes host flags (nodes_wanted flags) 0 begun in
        let went = spawn_nodes-done (nodes_wanted flags) 0 begun in
        let (all, _) =
          spawn_nodes_lem host flags (nodes_wanted flags) 0 [] begun out.0 refl refl
            (ap (λ s. (out.0, s)) went) in
        spawned_all-done out went (
          subst (λ l. AreUp l out.0.world) (sym all)
            (spawn_nodes-AreUp (nodes_wanted flags) 0 begun))
