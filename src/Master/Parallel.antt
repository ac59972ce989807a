-- ===== src/Master/Parallel.antt =====
-- master/paralleliser.go
use mathlib.Core.List.{Memᴰ}
use sum.Prelude.{◌≡◌, refl, String, Option, none, some, List, [], ◌∷◌, ◌++◌}
use sum.Prelude.Tests.{◌◇◌}
use sum.Master.Network.{Network}

-- What a worker sends to the channels, and the text of its panic, if it panics.
pub record Sent (R : Type 0) : Type 0 where
  pub results : List R
  pub errs : List String
  pub exception : Option String

abbrev pub nothing : {R : Type 0} → Sent R
nothing = record { results = []; errs = []; exception = none }

abbrev pub send_result : {R : Type 0} → R → Sent R
send_result r = record { results = r ∷ []; errs = []; exception = none }

abbrev pub send_error : {R : Type 0} → String → Sent R
send_error e = record { results = []; errs = e ∷ []; exception = none }

-- the errors of a worker, with the one that its recover sends
unfoldable pub errors_of : {R : Type 0} → Sent R → List String
errors_of sent = elim (sent.exception) [
  | none ↦ sent.errs
  | some e ↦ sent.errs ++ ("Worker exception: " ◇ e) ∷ []
]

-- The workers, each whole, in the order in which they are given. `S` is what they change.
unfoldable pub run_workers :
    {S N R : Type 0} → (N → S → S × Sent R) → List N → S → S × (List R × List String)
unfolding errors_of
run_workers f [] s = (s, ([], []))
run_workers f (n ∷ nodes) s =
    let (s1, sent) = f n s in
    let (s2, (results, errs)) = run_workers f nodes s1 in
    (s2, (sent.results ++ results, errors_of sent ++ errs))

-- doParallel: the scheduler chooses the order
unfoldable pub do_parallel :
    {W B S N R : Type 0}
    → Network W B
    → (N → S × W → (S × W) × Sent R)
    → List N
    → S × W
    → (S × W) × (List R × List String)
unfolding run_workers
do_parallel net f [] (s, w) = ((s, w), ([], []))
do_parallel net f (n ∷ nodes) (s, w) =
    let (w1, order) = net.schedule (n ∷ nodes) w in run_workers f order (s, w1)

-- some node, some worker
pub do_parallel_some :
    {W B S N R : Type 0} (net : Network W B) (f : N → S × W → (S × W) × Sent R) (n : N)
    (nodes : List N) (s : S) (w : W)
    → Memᴰ n nodes
    → do_parallel net f nodes (s, w)
      ≡ run_workers f (net.schedule nodes w).1 (s, (net.schedule nodes w).0)
unfolding do_parallel
do_parallel_some net f n [] s w p = elim p [ ]
do_parallel_some net f n (m ∷ nodes) s w p = refl
