-- ===== src/Daemon/Modes.antt =====
-- What cmd/sumd serves when it has started.
use sum.Prelude.{◌≡◌, ◌≢◌, ◌⊎◌, refl, inl, inr, String, none, some, [], ◌∷◌, arith}
use sum.Prelude.Tests.{Result, ok, err, string_eq, ◌==◌, Bool-cases}
use sum.Daemon.{
  Flags, Machine, Ending, returned, fatal, panicked, Server, master_service, internal_service,
  sum_service, continue_with, ◌>>=◌, made, start_profiling, setup_logging, setup_grpc_server,
  create_service, start, of_node, of_master, stats_reporter,
}

module _ {W M N : Type 0} (machine : Machine W M N) (flags : Flags) where
  -- the world when the service is made
  unfoldable pub set_up : W → W
  set_up w =
      ((start_profiling machine flags
          >>= (λ _. setup_logging machine flags)
          >>= (λ _. setup_grpc_server machine flags))
        w).0

  -- The server has just the service that the constructor of its mode has made in the world `w`, and
  -- what it registers and who reports its statistics are those of the mode.
  unfoldable pub Runs : W → Server M N → Type 0
  Runs w server =
      ((svc : N) × ((machine.new_node flags w).1 ≡ ok svc)
        × (server ≡ record {
          node_svc = some svc;
          master_svc = none;
          registered = internal_service ∷ sum_service ∷ [];
        })
        × (stats_reporter server ≡ returned (of_node svc))
        × (flags.master_cfg ≡ ""))
      ⊎ ((svc : M) × ((machine.new_master flags w).1 ≡ ok svc)
          × (server ≡ record {
            node_svc = none;
            master_svc = some svc;
            registered = master_service ∷ internal_service ∷ sum_service ∷ [];
          })
          × (stats_reporter server ≡ returned (of_master svc))
          × (flags.master_cfg ≢ ""))

  made-returned :
      {A : Type 0} (prefix : String) (f : A → Server M N) (out : W × Result String A)
      (server : Server M N)
      → (made prefix f out).1 ≡ returned server
      → (a : A) × (out.1 ≡ ok a) × (server ≡ f a)
  unfolding made
  made-returned prefix f (w, ok a) server e = (a, refl, ground (arith, e))
  made-returned prefix f (w, err x) server e = absurd (ground arith)

  create_service-Runs :
      (w : W) (server : Server M N)
      → (create_service machine flags w).1 ≡ returned server
      → Runs w server
  unfolding Runs create_service stats_reporter
  create_service-Runs w server e = elim (Bool-cases (flags.master_cfg == "")) [
    | inl b ↦
        let (svc, from, same) =
          made-returned "" _ (machine.new_node flags w) server (rw (create_service, b) at e) in
        inl (svc, from, same, rw (same) refl, (string_eq.means_eq flags.master_cfg "").0 b)
    | inr b ↦
        let (svc, from, same) =
          made-returned "cannot start master service: " _ (machine.new_master flags w) server
            (rw (create_service, b) at e) in
        inr (
          svc,
          from,
          same,
          rw (same) refl,
          λ n. ground (arith, string_eq.means_eq flags.master_cfg ""),
        )
  ]

  continued :
      {A B : Type 0} (f : A → W → W × Ending B) (out : W × Ending A) (b : B)
      → (continue_with f out).1 ≡ returned b
      → (a : A) × ((f a out.0).1 ≡ returned b)
  unfolding continue_with
  continued f (w, returned a) b e = (a, e)
  continued f (w, fatal x) b e = absurd (ground arith)
  continued f (w, panicked x) b e = absurd (ground arith)

  -- Where main comes to serve, it has just the service of its mode, that of a master where a
  -- configuration of one is given and that of a node otherwise, as the constructor of the mode has
  -- made it and no other service beside it, registered for the interfaces of the mode, and
  -- statsReport, which does not panic, reports on it.
  pub start-Runs :
      (w : W) (server : Server M N)
      → (start machine flags w).1 ≡ returned server
      → Runs (set_up w) server
  unfolding start ◌>>=◌ set_up
  start-Runs w server e =
      let (_, made_it) = continued (λ _. create_service machine flags) _ server e in
      create_service-Runs _ server made_it
