-- ===== src/Master/Records/Reads.antt =====
-- ReadRecord of the master over the answers of its nodes (master/mux_records.go).
use mathlib.Core.List.{Memᴰ}
use sum.Prelude.{
  ℕ, suc, ◌≡◌, ◌∙◌, ap, refl, ◌⊎◌, inl, inr, String, true, Option, none, List, [], ◌∷◌, ◌++◌, arith,
}
use sum.Prelude.Tests.{Result, ok, err, string_eq, beq_self, Result-cases}
use sum.Proto.{Record, RecordResponse}
use sum.Master.Network.{Network}
use sum.Master.Replies.{settled, record_response, err_record_response}
use sum.Master.Raccoon.{Parser}
use sum.Master.State.{NodeInfo, Service, numbered}
use sum.Master.Parallel.{Sent, run_workers, do_parallel, do_parallel_some, errors_of}
use sum.Master.Records.{read_worker, read_record, not_found_error, only_result, complaint}

-- Every goroutine does its work, and no other does.
pub record IsFair {W B : Type 0} (net : Network W B) : Type 1 where
  pub runs :
      {A : Type 0} (n : A) (nodes : List A) (w : W) → Memᴰ n nodes → Memᴰ n (net.schedule nodes w).1
  pub only :
      {A : Type 0} (n : A) (nodes : List A) (w : W) → Memᴰ n (net.schedule nodes w).1 → Memᴰ n nodes

-- Where the world is in a state `I`, each node answers a read by `answer`, and reading and scheduling
-- leave the world in such a state.
pub record Answers {W B : Type 0} (net : Network W B) (id : ℕ)
    (answer : NodeInfo → Result String RecordResponse) (I : W → Type 0) : Type 1 where
  pub reads :
      (n : NodeInfo) (w : W) → I w → settled (net.read_record n.connection id w).1 ≡ answer n
  pub keeps : (n : NodeInfo) (w : W) → I w → I (net.read_record n.connection id w).0
  pub schedules : {A : Type 0} (nodes : List A) (w : W) → I w → I (net.schedule nodes w).0

complaint_results :
    {R : Type 0} (ignored : String) (n : NodeInfo) (m : String)
    → (complaint {R = R} ignored n m).results ≡ []
unfolding complaint
complaint_results ignored n m = ground arith

ignored_lem :
    (R : Type 0) (ignored : String) (n : NodeInfo)
    → errors_of (complaint {R = R} ignored n ignored) ≡ []
unfolding complaint errors_of
ignored_lem R ignored n = rw (beq_self ignored) refl

pub numbered_mem :
    (k : ℕ) (n : NodeInfo) (nodes : List NodeInfo)
    → Memᴰ n nodes
    → (i : ℕ) × Memᴰ (i, n) (numbered k nodes)
unfolding numbered
numbered_mem k n [] p = elim p [ ]
numbered_mem k n (m ∷ nodes) (Memᴰ.head e) = (k, Memᴰ.head (ap (λ (x : NodeInfo). (k, x)) e))
numbered_mem k n (m ∷ nodes) (Memᴰ.tail p) =
    let (i, q) = numbered_mem (suc k) n nodes p in (i, Memᴰ.tail q)

mem_numbered :
    (k i : ℕ) (n : NodeInfo) (nodes : List NodeInfo) → Memᴰ (i, n) (numbered k nodes) → Memᴰ n nodes
unfolding numbered
mem_numbered k i n [] p = elim p [ ]
mem_numbered k i n (m ∷ nodes) (Memᴰ.head e) = Memᴰ.head (ap (λ (x : ℕ × NodeInfo). x.1) e)
mem_numbered k i n (m ∷ nodes) (Memᴰ.tail p) = Memᴰ.tail (mem_numbered (suc k) i n nodes p)

module _ {W B : Type 0} (net : Network W B) {js : Parser} where
  -- what one worker sends
  sent_ok :
      (id i : ℕ) (n : NodeInfo) (resp : RecordResponse) (sw : Service js × W)
      → settled (net.read_record n.connection id sw.1).1 ≡ ok resp
      → (read_worker net id (i, n) sw).1
        ≡ record { results = resp.stored ∷ []; errs = []; exception = none }
  unfolding read_worker
  sent_ok id i n resp sw h = rw (h, read_worker) refl

  sent_err :
      (id i : ℕ) (n : NodeInfo) (m : String) (sw : Service js × W)
      → settled (net.read_record n.connection id sw.1).1 ≡ err m
      → (read_worker net id (i, n) sw).1 ≡ complaint (not_found_error id) n m
  unfolding read_worker
  sent_err id i n m sw h = rw (h, read_worker) refl

module _ {W B : Type 0} (net : Network W B) {js : Parser} (I : W → Type 0) where
  results_lem :
      (id : ℕ) (r : Option Record) (answer : NodeInfo → Result String RecordResponse)
      (nodes : List (ℕ × NodeInfo)) (sw : Service js × W)
      → Answers net id answer I
      → I sw.1
      → ((i : ℕ) (n : NodeInfo) (resp : RecordResponse)
          → Memᴰ (i, n) nodes
          → answer n ≡ ok resp
          → resp.stored ≡ r)
      → ((run_workers (read_worker net id) nodes sw).1.0 ≡ [])
          × ((i : ℕ) (n : NodeInfo) → Memᴰ (i, n) nodes → (m : String) × (answer n ≡ err m))
        ⊎ ((rest : List (Option Record)) × ((run_workers (read_worker net id) nodes sw).1.0
              ≡ r ∷ rest))
  unfolding run_workers read_worker
  results_lem id r answer [] sw h t k = inl (refl, λ i n p. elim p [ ])
  results_lem id r answer ((i, n) ∷ nodes) sw h t k =
      let next = (read_worker net id (i, n) sw).0 in
      let later =
        results_lem id r answer nodes next h (h.keeps n sw.1 t)
          (λ j m resp p. k j m resp (Memᴰ.tail p)) in
      elim (Result-cases (answer n)) [
        | inl (resp, e) ↦ inr (
          _,
          ap
                (λ (t : Sent (Option Record)).
                  t.results ++ (run_workers (read_worker net id) nodes next).1.0)
                (sent_ok net id i n resp sw (h.reads n sw.1 t ∙ e))
              ∙ ap (λ x. x ∷ (run_workers (read_worker net id) nodes next).1.0)
                  (k i n resp (Memᴰ.head refl) e),
        )
        | inr (m, e) ↦
            let none_here : (read_worker net id (i, n) sw).1.results ≡ [] =
              ap (λ (t : Sent (Option Record)). t.results)
                (sent_err net id i n m sw (h.reads n sw.1 t ∙ e))
              ∙ complaint_results (not_found_error id) n m in
            rw none_here (elim later [
              | inl (empty, silent) ↦ inl (
                empty,
                λ j x p. elim p [
                  | Memᴰ.head q ↦ (m, ap (λ (y : ℕ × NodeInfo). answer y.1) q ∙ e)
                  | Memᴰ.tail q ↦ silent j x q
                ],
              )
              | inr found ↦ inr found
            ])
      ]

  silence_lem :
      (id : ℕ) (answer : NodeInfo → Result String RecordResponse) (nodes : List (ℕ × NodeInfo))
      (sw : Service js × W)
      → Answers net id answer I
      → I sw.1
      → ((i : ℕ) (n : NodeInfo) → Memᴰ (i, n) nodes → answer n ≡ err (not_found_error id))
      → (run_workers (read_worker net id) nodes sw).1 ≡ ([], [])
  unfolding run_workers read_worker
  silence_lem id answer [] sw h t k = refl
  silence_lem id answer ((i, n) ∷ nodes) sw h t k =
      let next = (read_worker net id (i, n) sw).0 in
      let later =
        silence_lem id answer nodes next h (h.keeps n sw.1 t) (λ j m p. k j m (Memᴰ.tail p)) in
      let here =
        sent_err net id i n (not_found_error id) sw (h.reads n sw.1 t ∙ k i n (Memᴰ.head refl)) in
      rw
        (
          here,
          later,
          complaint_results {R = Option Record} (not_found_error id) n (not_found_error id),
          ignored_lem (Option Record) (not_found_error id) n,
        )
        refl

  -- Where every goroutine runs, the nodes keep their answers while they are read, and all that
  -- succeed give the same record, ReadRecord of the master gives that record as soon as some node
  -- has it, in whatever order the nodes answer and whatever errors the others give.
  pub read_record_found :
      (id : ℕ) (r : Option Record) (answer : NodeInfo → Result String RecordResponse)
      (s : Service js) (w : W) (n : NodeInfo) (resp : RecordResponse)
      → IsFair net
      → Answers net id answer I
      → I w
      → ((m : NodeInfo) (x : RecordResponse) → Memᴰ m s.nodes → answer m ≡ ok x → x.stored ≡ r)
      → Memᴰ n s.nodes
      → answer n ≡ ok resp
      → (read_record net id (s, w)).1 ≡ record { success = true; msg = ""; stored = r }
  unfolding read_record only_result
  read_record_found id r answer s w n resp fair h t k p e =
      let all = numbered 0 s.nodes in
      let order = (net.schedule all w).1 in
      let respond = λ (g : List (Option Record) × List String).
        only_result (not_found_error id) (λ x. record { success = true; msg = ""; stored = x }) g in
      let only = λ (i : ℕ) (m : NodeInfo) (x : RecordResponse) (q : Memᴰ (i, m) order).
        k m x (mem_numbered 0 i m s.nodes (fair.only (i, m) all w q)) in
      let (i, q) = numbered_mem 0 n s.nodes p in
      elim (results_lem id r answer order (s, (net.schedule all w).0) h (h.schedules all w t)
        only) [
          | inl (empty, silent) ↦
              let (m, f) = silent i n (fair.runs (i, n) all w q) in absurd (cc (e, f))
          | inr (rest, f) ↦
              ap (λ g. respond g.1) (do_parallel_some net (read_worker net id) (i, n) all s w q)
              ∙ ap
                  (λ l.
                    respond
                      (l, (run_workers (read_worker net id) order (s, (net.schedule all w).0)).1.1))
                  f
        ]

  all_silent :
      (id : ℕ) (answer : NodeInfo → Result String RecordResponse) (nodes : List (ℕ × NodeInfo))
      (s : Service js) (w : W)
      → IsFair net
      → Answers net id answer I
      → I w
      → ((i : ℕ) (n : NodeInfo) → Memᴰ (i, n) nodes → answer n ≡ err (not_found_error id))
      → (do_parallel net (read_worker net id) nodes (s, w)).1 ≡ ([], [])
  unfolding do_parallel
  all_silent id answer [] s w fair h t k = refl
  all_silent id answer (n ∷ nodes) s w fair h t k =
      silence_lem id answer (net.schedule (n ∷ nodes) w).1 (s, (net.schedule (n ∷ nodes) w).0) h
        (h.schedules (n ∷ nodes) w t) (λ i m p. k i m (fair.only (i, m) (n ∷ nodes) w p))

  -- Where every goroutine runs, the nodes keep their answers while they are read, and each answers
  -- that it has no such record, ReadRecord of the master answers the same.
  pub read_record_missing :
      (id : ℕ) (answer : NodeInfo → Result String RecordResponse) (s : Service js) (w : W)
      → IsFair net
      → Answers net id answer I
      → I w
      → ((n : NodeInfo) → Memᴰ n s.nodes → answer n ≡ err (not_found_error id))
      → (read_record net id (s, w)).1 ≡ err_record_response (not_found_error id)
  unfolding read_record only_result
  read_record_missing id answer s w fair h t k =
      ap
        (λ g.
          only_result (not_found_error id) (λ x. record { success = true; msg = ""; stored = x }) g)
        (all_silent id answer (numbered 0 s.nodes) s w fair h t
          (λ i n p. k n (mem_numbered 0 i n s.nodes p)))
