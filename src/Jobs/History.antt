-- ===== src/Jobs/History.antt =====
-- Any sequence of calls of the queue: `JobQueueProvider` as its callers use it.
use aadesh.Common.{ℕ, String, Option, List, [], ◌∷◌, ℤ}
use aadesh.Chrono.{Time, Plus}
use aadesh.Jobs.Table.{Jobs}
use aadesh.Jobs.Row.{IsTable}
use aadesh.Jobs.Updates.{Keeps, Keeps-refl, Keeps-trans}
use aadesh.Jobs.Enqueue.{JobEnqueueInput, enqueue_job}
use aadesh.Jobs.Lease.{lease_jobs}
use aadesh.Jobs.Finish.{ack_job, cancel_job}
use aadesh.Jobs.Retry.{JobFailInput, fail_job}
use aadesh.Jobs.Steps.{enqueue-Keeps, lease-Keeps, ack-Keeps, fail-Keeps, cancel-Keeps}

-- A call with the instant at which it reads the clock, and the identifier that it makes.
pub data Call : Type 0 where
  enqueue : Time → String → JobEnqueueInput → Call
  lease : Time → String → ℕ → ℤ → Option String → Call
  ack : Time → String → String → ℤ → Call
  fail : Time → JobFailInput → Call
  cancel : Time → String → Call

-- The table after a call, whatever the call returns.
unfoldable pub after : Plus → Call → Jobs → Jobs
after plus (enqueue now fresh input) js = (enqueue_job now fresh input js).1
after plus (lease now worker limit duration filter) js =
    (lease_jobs plus now worker limit duration filter js).1
after plus (ack now k worker epoch) js = (ack_job now k worker epoch js).1
after plus (fail now input) js = (fail_job plus now input js).1
after plus (cancel now k) js = (cancel_job now k js).1

unfoldable pub run : Plus → List Call → Jobs → Jobs
unfolding after
run plus [] js = js
run plus (c ∷ cs) js = run plus cs (after plus c js)

after-Keeps : (plus : Plus) (c : Call) (js : Jobs) → IsTable js → Keeps js (after plus c js)
unfolding after
after-Keeps plus (enqueue now fresh input) js h = enqueue-Keeps now fresh input js h
after-Keeps plus (lease now worker limit duration filter) js h =
    lease-Keeps plus now worker limit duration filter js h
after-Keeps plus (ack now k worker epoch) js h = ack-Keeps now k worker epoch js h
after-Keeps plus (fail now input) js h = fail-Keeps plus now input js h
after-Keeps plus (cancel now k) js h = cancel-Keeps now k js h

-- From a table that is well formed, any calls in any order, failing or not, lead to one that is: a
-- row has an owner and an end of its lease exactly when it is leased, and a completion date exactly
-- when it is final; identifiers stay unique; a job has not failed more often than it was leased. And
-- each row before has its place after: its identifier, type, key and limit are the same, its epoch
-- and attempts have not fallen, a lease at the same epoch has the same owner, and a row that was
-- final is the same row.
pub run-Keeps :
    (plus : Plus) (calls : List Call) (js : Jobs) → IsTable js → Keeps js (run plus calls js)
unfolding run
run-Keeps plus [] js h = Keeps-refl js h
run-Keeps plus (c ∷ cs) js h =
    let step = after-Keeps plus c js h in
    Keeps-trans js (after plus c js) (run plus cs (after plus c js)) step
      (run-Keeps plus cs (after plus c js) step.is_table)
