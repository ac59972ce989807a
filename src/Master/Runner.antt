-- ===== src/Master/Runner.antt =====
-- Run of master/mux_runner.go.
pub mod Cleanup
use sum.Prelude.{ℕ, suc, String, Bool, true, false, Option, none, some, List, [], ◌∷◌, ◌||◌}
use sum.Prelude.Tests.{Result, ok, err, ◌◇◌, ◌==◌, nat_eq, string_eq, if◌then◌else◌}
use sum.Prelude.Lists.{set}
use sum.Prelude.Decimal.{format_uint, parse_uint}
use sum.Proto.{Oracle, RecordResponse, Call, CallResponse}
use sum.Node.Interpreter.{Ending, returned, failed, panicked, Panic}
use sum.Node.Payload.{Gzip, build_payload, read_payload}
use sum.Master.Network.{Network}
use sum.Master.Replies.{err_call_response, settled, oracle_response, call_response}
use sum.Master.Raccoon.{Parser, AstRaccoon, Resolved, found, record_not_found}
use sum.Master.Raccoon.Patch.{patch_code}
use sum.Master.State.{NodeInfo, Service, numbered}
use sum.Master.Parallel.{Sent, send_result, send_error, do_parallel}
use sum.Master.Records.{read_record, not_found_error, join}
use sum.Master.Oracles.{find_raccoon}
use sum.Master.Merger.{Value, null, MergerVm, merge}

-- compress/gzip, encoding/json, the text of strconv's error, and the virtual machine of merge.
pub record Runtime (W B J : Type 0) : Type 1 where
  pub gzip : Gzip B
  pub unmarshal : B → Result String (Value J)
  pub marshal : Value J → Result String B
  pub uint_error : String → String
  pub vm : MergerVm W J

-- IsParameterPositionARecordLookup
unfoldable pub is_lookup : ℕ → List ℕ → Bool
is_lookup i [] = false
is_lookup i (j ∷ to_lookup) = (j == i) || is_lookup i to_lookup

-- `resolvedRecords`, filled with nil
unfoldable pub unresolved : List String → List (Option Resolved)
unresolved [] = []
unresolved (p ∷ parameters) = none ∷ unresolved parameters

-- what ReadRecord has answered for a parameter
unfoldable pub resolved_as : ℕ → RecordResponse → Result String (Option Resolved)
resolved_as id resp =
    if resp.success
    then ok (elim (resp.stored) [ none ↦ none | some r ↦ some (found r) ])
    else if resp.msg == not_found_error id
    then ok (some record_not_found)
    else err ("Unable to retrieve record " ◇ format_uint id ◇ ": " ◇ resp.msg)

-- What the workers share: node2oracleId, and whether the context is cancelled.
pub record Deployment : Type 0 where
  pub created : List (NodeInfo × ℕ)
  pub cancelled : Bool

module _ {W B J : Type 0} (net : Network W B) (rt : Runtime W B J) where
  -- the loop over the arguments, from the place `i` on
  unfoldable pub resolve :
      {js : Parser}
      → List ℕ
      → ℕ
      → List String
      → List (Option Resolved)
      → Service js × W
      → (Service js × W) × Result String (List (Option Resolved))
  unfolding is_lookup read_record resolved_as
  resolve to_lookup i [] resolved sw = (sw, ok resolved)
  resolve to_lookup i (a ∷ args) resolved sw =
      let skipped = resolve to_lookup (suc i) args resolved sw in
      elim (is_lookup i to_lookup) [
        | false ↦ skipped
        | true ↦ elim (parse_uint a) [
          | none ↦ (
            sw,
            err (
                "Unable to parse record id form parameter #"
                ◇ format_uint i
                ◇ ": "
                ◇ rt.uint_error a),
          )
          | some id ↦
              let (sw1, resp) = read_record net id sw in
              elim (resolved_as id resp) [
                | err e ↦ (sw1, err e)
                | ok r ↦ resolve to_lookup (suc i) args (set resolved i r) sw1
              ]
        ]
      ]

  -- the end of the worker: the result of a run
  unfoldable pub decode : CallResponse B → Ending (Value J)
  unfolding read_payload
  decode resp = elim (resp.body) [
    | none ↦
        panicked (Panic.error "runtime error: invalid memory address or nil pointer dereference")
    | some body ↦ elim (read_payload rt.gzip body) [
      | err e ↦ failed e
      | ok raw ↦ elim (rt.unmarshal raw) [ err e ↦ failed e | ok v ↦ returned v ]
    ]
  ]

  unfoldable pub run_created : NodeInfo → ℕ → List String → W → W × Ending (Value J)
  unfolding settled decode
  run_created n oracle_id args w =
      let (w1, reply) = net.run n.connection (record { oracle_id = oracle_id; args = args }) w in
      (w1, elim (settled reply) [ err e ↦ failed e | ok resp ↦ decode resp ])

  -- what doParallel sends for the end of a worker, and the cancellation
  unfoldable pub report : Ending (Value J) → Deployment → Deployment × Sent (Value J)
  report (returned v) d = (d, send_result v)
  report (failed e) d =
      if e == "" then (d, send_result null) else (record d { cancelled = true }, send_error e)
  report (panicked (Panic.text t)) d = (d, record { results = []; errs = []; exception = some t })
  report (panicked (Panic.error t)) d = (d, record { results = []; errs = []; exception = some t })
  report (panicked (Panic.other t v)) d =
      (d, record { results = []; errs = []; exception = some v })

  unfoldable pub worker :
      Oracle → List String → ℕ × NodeInfo → Deployment × W → (Deployment × W) × Sent (Value J)
  unfolding settled run_created report
  worker oracle args (i, n) (d, w) =
      let (w1, reply) = net.create_oracle n.connection oracle w in
      elim (settled reply) [
        | err e ↦ let (d1, sent) = report (failed e) d in ((d1, w1), sent)
        | ok resp ↦ elim (parse_uint resp.msg) [
          | none ↦
              let (d1, sent) =
                report
                  (failed (
                    "unable to parse oracleId string '"
                    ◇ resp.msg
                    ◇ "': "
                    ◇ rt.uint_error resp.msg))
                  d in
              ((d1, w1), sent)
          | some oracle_id ↦
              let (w2, result) = run_created n oracle_id args w1 in
              let (d1, sent) = report result (record d { created = (n, oracle_id) ∷ d.created }) in
              ((d1, w2), sent)
        ]
      ]

  -- the deferred cleanup, whose context is the one that the workers share: `ctx` is assigned again
  -- after the closure is made. An answer is only logged.
  unfoldable pub delete_temporary : Bool → NodeInfo → ℕ → W → W
  delete_temporary true n oracle_id w = (net.cancelled_delete_oracle n.connection oracle_id w).0
  delete_temporary false n oracle_id w = (net.delete_oracle n.connection oracle_id w).0

  unfoldable pub delete_created : Bool → List (NodeInfo × ℕ) → W → W
  unfolding delete_temporary
  delete_created cancelled [] w = w
  delete_created cancelled ((n, oracle_id) ∷ created) w =
      delete_created cancelled created (delete_temporary cancelled n oracle_id w)

  unfoldable pub clean_up : Deployment → W → W
  unfolding delete_created
  clean_up d w = delete_created d.cancelled d.created w

  -- cf, which is deferred too
  unfoldable pub cancel : Deployment → Deployment
  cancel d = record d { cancelled = true }

  -- the deferred calls, the last one first
  unfoldable pub run_deferred : Deployment → W → W
  unfolding clean_up cancel
  run_deferred d w = clean_up (cancel d) w

  -- the answer for the merged results
  unfoldable pub merged_response : Ending (Value J) → Ending (CallResponse B)
  merged_response (returned v) = elim (rt.marshal v) [
    | err e ↦ returned (err_call_response ("Unable to marshal result: " ◇ e))
    | ok raw ↦
        returned (record { success = true; msg = ""; body = some (build_payload rt.gzip raw) })
  ]
  merged_response (failed e) =
      returned (err_call_response ("Unable to merge results from nodes: " ◇ e))
  merged_response (panicked p) = panicked p

  unfoldable pub collected :
      {js : Parser} → AstRaccoon js → List (Value J) × List String → W → W × Ending (CallResponse B)
  unfolding merge merged_response
  collected a (results, e ∷ errs) w =
      (w, returned (err_call_response ("Errors from nodes: [" ◇ join (e ∷ errs) ◇ "]")))
  collected a (results, []) w =
      let (w1, merged) = merge rt.vm a results w in (w1, merged_response merged)

  -- Run after PatchCode
  unfoldable pub deploy :
      {js : Parser}
      → AstRaccoon js
      → String
      → List String
      → Service js × W
      → (Service js × W) × Ending (CallResponse B)
  unfolding worker do_parallel numbered collected run_deferred
  deploy a new_code args (s, w) =
      let new_oracle : Oracle = record { id = 0; name = a.name; code = new_code } in
      let ((d, w1), gathered) =
        do_parallel net (worker new_oracle args) (numbered 0 s.nodes)
          (record { created = []; cancelled = false }, w) in
      let (w2, response) = collected a gathered w1 in ((s, run_deferred d w2), response)

  unfoldable pub patched :
      {js : Parser}
      → AstRaccoon js
      → List String
      → Result String (List (Option Resolved))
      → Service js × W
      → (Service js × W) × Ending (CallResponse B)
  unfolding patch_code deploy
  patched a args (err e) sw = (sw, returned (err_call_response e))
  patched a args (ok records) sw = elim (patch_code records a) [
    | returned code ↦ deploy a code args sw
    | failed e ↦ (sw, returned (err_call_response ("Unable to patch JS code: " ◇ e)))
    | panicked p ↦ (sw, panicked p)
  ]

  unfoldable pub run :
      {js : Parser} → Call → Service js × W → (Service js × W) × Ending (CallResponse B)
  unfolding find_raccoon resolve patched unresolved
  run call (s, w) = elim (find_raccoon call.oracle_id s) [
    | none ↦ (
      (s, w),
      returned (err_call_response ("oracle " ◇ format_uint call.oracle_id ◇ " not found.")),
    )
    | some a ↦
        let (sw1, resolved) =
          resolve a.parameters_to_lookup 0 call.args (unresolved a.parameters) (s, w) in
        patched a call.args resolved sw1
  ]
