-- ===== src/Master/State.antt =====
-- The state of the master and of its nodes: master/mux_service.go, node.go, and setNextIdIfHigher.
use sum.Prelude.{ℕ, zero, suc, ◌+◌, ◌%◌, String, none, some, List, [], ◌∷◌}
use sum.Prelude.Tests.{Result, ok, err, ◌◇◌, ◌==◌, string_eq, leb, if◌then◌else◌}
use sum.Prelude.Lists.{length}
use sum.Proto.{ServerInfo, uint64_mod}
use sum.Master.Network.{Network}
use sum.Master.Raccoon.{Parser, AstRaccoon}

pub record NodeInfo : Type 0 where
  pub id : ℕ
  pub name : String
  pub cert_file : String
  pub connection : ℕ
  pub status : ServerInfo

-- A node is the place of its pointer in `nodes`; the raccoons are a map by identifier. The locks, the pool of
-- virtual machines (part of the world) and what only Info reads are left out.
pub record Service (js : Parser) : Type 0 where
  pub nodes : List NodeInfo
  pub next_node_id : ℕ
  pub next_id : ℕ
  pub raccoons : List (ℕ × AstRaccoon js)
  pub next_raccoon_id : ℕ
  pub config_file : String

-- the nodes with their places, from the given one on
unfoldable pub numbered : ℕ → List NodeInfo → List (ℕ × NodeInfo)
numbered i [] = []
numbered i (n ∷ nodes) = (i, n) ∷ numbered (suc i) nodes

-- the change of a node behind its pointer
unfoldable pub modify_at : ℕ → (NodeInfo → NodeInfo) → List NodeInfo → List NodeInfo
modify_at i change [] = []
modify_at zero change (n ∷ nodes) = change n ∷ nodes
modify_at (suc i) change (n ∷ nodes) = n ∷ modify_at i change nodes

-- the sum of Status().Records
unfoldable pub total_records : List NodeInfo → ℕ
total_records [] = 0
total_records (n ∷ nodes) = (n.status.records + total_records nodes) % uint64_mod

module _ {js : Parser} where
  unfoldable pub set_next_id_if_higher : ℕ → Service js → Service js
  set_next_id_if_higher new_id s =
      if leb s.next_id new_id then record s { next_id = (new_id + 1) % uint64_mod } else s

  unfoldable pub num_records : Service js → ℕ
  unfolding total_records
  num_records s = total_records s.nodes

  unfoldable pub num_oracles : Service js → ℕ
  num_oracles s = length s.raccoons

-- what wakes NodeUpdater
pub data Wakeup : Type 0 where
  tick cancelled : Wakeup

module _ {W B : Type 0} (net : Network W B) where
  -- UpdateStatus
  unfoldable pub update_status : NodeInfo → W → W × NodeInfo
  update_status n w =
      let (w1, reply) = net.info n.connection w in
      elim reply [ err _ ↦ (w1, n) | ok info ↦ (w1, record n { status = info }) ]

  -- UpdateNodes
  unfoldable pub update_all : List NodeInfo → W → W × List NodeInfo
  unfolding update_status
  update_all [] w = (w, [])
  update_all (n ∷ nodes) w =
      let (w1, n') = update_status n w in
      let (w2, nodes') = update_all nodes w1 in (w2, n' ∷ nodes')

  unfoldable pub update_nodes : {js : Parser} → Service js → W → W × Service js
  unfolding update_all
  update_nodes s w = let (w1, nodes') = update_all s.nodes w in (w1, record s { nodes = nodes' })

  -- NodeUpdater over the events of its select: a tick of its ticker, or the end of its context
  unfoldable pub node_updater : {js : Parser} → List Wakeup → Service js → W → W × Service js
  unfolding update_nodes
  node_updater [] s w = (w, s)
  node_updater (tick ∷ rest) s w = let (w1, s1) = update_nodes s w in node_updater rest s1 w1
  node_updater (cancelled ∷ rest) s w = (w, s)

  -- CreateNode
  unfoldable pub dialled : String → String → W × Result String ℕ → W × Result String NodeInfo
  dialled node cert (w, err e) = (w, err ("unable to dial service at '" ◇ node ◇ "': " ◇ e))
  dialled node cert (w, ok conn) =
      let (w1, reply) = net.info conn w in
      elim reply [
        | err e ↦ (w1, err ("unable to get service info from node '" ◇ node ◇ "': " ◇ e))
        | ok info ↦ (
          w1,
          ok (record { id = 0; name = node; cert_file = cert; connection = conn; status = info }),
        )
      ]

  unfoldable pub create_node : String → String → W → W × Result String NodeInfo
  unfolding dialled
  create_node node cert w =
      if cert == ""
      then dialled node cert (net.dial node none w)
      else elim (net.load_credentials cert w) [
        | err e ↦ (w, err ("cannot load certificate file '" ◇ cert ◇ "': " ◇ e))
        | ok creds ↦ dialled node cert (net.dial node (some creds) w)
      ]
