-- ===== src/Master/Stealer.antt =====
-- master/oracle_stealer.go
use sum.Prelude.{ℕ, zero, suc, ◌+◌, String, Option, none, some, List, [], ◌∷◌}
use sum.Prelude.Tests.{ok, err, ◌◇◌, if◌then◌else◌}
use sum.Prelude.Decimal.{format_uint}
use sum.Proto.{Oracle}
use sum.Node.Interpreter.{Ending, returned, failed, panicked, Panic}
use sum.Master.Network.{Network}
use sum.Master.Replies.{settled, oracle_response}
use sum.Master.Raccoon.{Parser}
use sum.Master.State.{NodeInfo, Service, modify_at, update_status}
use sum.Master.Oracles.{do_i_have_this_oracle, create_oracle}

module _ {js : Parser} where
  -- the oracle that was read, taken over unless there is an equal one
  unfoldable pub absorb : NodeInfo → ℕ → Oracle → Service js → Service js × Option String
  unfolding do_i_have_this_oracle create_oracle
  absorb n oracle_id oracle s =
      let (s1, resp) =
        create_oracle (record { id = 0; name = oracle.name; code = oracle.code }) s in
      if do_i_have_this_oracle oracle s then (s, none) else if resp.success then (s1, none) else (
        s1,
        some (
            "unable to load oracle #"
            ◇ format_uint oracle_id
            ◇ " ("
            ◇ oracle.name
            ◇ ") from node "
            ◇ format_uint n.id
            ◇ ": "
            ◇ resp.msg),
      )

module _ {W B : Type 0} (net : Network W B) {js : Parser} where
  -- deployAgentSmith after ReadOracle; an answer with no oracle is a nil dereference
  unfoldable pub absorbed :
      NodeInfo → ℕ → Oracle → Service js × W → (Service js × W) × Option String
  unfolding absorb
  absorbed n oracle_id oracle (s, w) =
      let (s1, failure) = absorb n oracle_id oracle s in
      elim failure [
        | some e ↦ ((s1, w), some e)
        | none ↦ let (w1, _) = net.delete_oracle n.connection oracle_id w in ((s1, w1), none)
      ]

  unfoldable pub deploy_agent_smith :
      NodeInfo → ℕ → Service js × W → Ending ((Service js × W) × Option String)
  unfolding absorbed settled
  deploy_agent_smith n oracle_id (s, w) =
      let (w1, reply) = net.read_oracle n.connection oracle_id w in
      elim (settled reply) [
        | err e ↦ returned (
          (s, w1),
          some (
              "unable to read oracle #"
              ◇ format_uint oracle_id
              ◇ " from node "
              ◇ format_uint n.id
              ◇ ": "
              ◇ e),
        )
        | ok resp ↦ elim (resp.oracle) [
          | none ↦
              panicked
                (Panic.error "runtime error: invalid memory address or nil pointer dereference")
          | some oracle ↦ returned (absorbed n oracle_id oracle (s, w1))
        ]
      ]

  -- the loop over the identifiers, of which `left` are left
  unfoldable pub steal : NodeInfo → (left oracle_id : ℕ) → Service js × W → Ending (Service js × W)
  unfolding deploy_agent_smith
  steal n zero oracle_id sw = returned sw
  steal n (suc left) oracle_id sw = elim (deploy_agent_smith n oracle_id sw) [
    | returned (sw1, _) ↦ steal n left (oracle_id + 1) sw1
    | failed e ↦ failed e
    | panicked e ↦ panicked e
  ]

  -- stealOraclesFromNode, with the node at the place `i`. UpdateStatus is taken to run at once.
  unfoldable pub refresh : ℕ → NodeInfo → Service js × W → Service js × W
  unfolding modify_at update_status
  refresh i n (s, w) =
      let (w1, n') = update_status net n w in
      (record s { nodes = modify_at i (λ _. n') s.nodes }, w1)

  unfoldable pub steal_oracles_from_node : ℕ → NodeInfo → Service js × W → Ending (Service js × W)
  unfolding steal refresh
  steal_oracles_from_node i n sw = elim (steal n n.status.oracles 1 sw) [
    | returned sw1 ↦ returned (refresh i n sw1)
    | failed e ↦ failed e
    | panicked e ↦ panicked e
  ]

  -- stealOracles, for the nodes with their places
  unfoldable pub steal_oracles : List (ℕ × NodeInfo) → Service js × W → Ending (Service js × W)
  unfolding steal_oracles_from_node
  steal_oracles [] sw = returned sw
  steal_oracles ((i, n) ∷ nodes) sw = elim (steal_oracles_from_node i n sw) [
    | returned sw1 ↦ steal_oracles nodes sw1
    | failed e ↦ failed e
    | panicked e ↦ panicked e
  ]
