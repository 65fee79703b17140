-- ===== src/Jobs/Steps.antt =====
-- The operations of the queue (job_queue.rs), one by one, on well-formed tables.
use aadesh.Common.{
  ℕ, ◌+◌, String, ◌≡◌, inl, inr, true, Option, none, some, List, [], ◌∷◌, ◌++◌, arith, ℤ, any, find,
  update_where, Bool-cases, Option-cases, reaches,
}
use aadesh.Chrono.{Time, Plus}
use aadesh.Outcome.{
  ok, conflict, ◌>>=◌, required, settle, settle_bind, ensure_holds, required-some, not_found,
  ensure,
}
use aadesh.Jobs.Table.{Job, Jobs, has_id, get_job}
use aadesh.Jobs.Row.{IsRow, IsTable}
use aadesh.Jobs.Updates.{
  Keeps, Keeps-refl, Keeps-trans, RowStep, StepsOn, StepsOn-All, StepsOn-found, update-Keeps,
  append-Keeps,
}
use aadesh.Jobs.Enqueue.{JobEnqueueInput, new_job, enqueue_or_existing, enqueue_job, find_duplicate}
use aadesh.Jobs.Lease.{can_take, taken, take_job, lease_each, lease_jobs, leasable_ids}
use aadesh.Jobs.Finish.{holds_lease, acked, ack_job, can_cancel, dropped, cancel_job}
use aadesh.Jobs.Retry.{JobFailInput, owns, failed, fail_job, next_run_after}

new_job-IsRow :
    (now : Time) (fresh : String) (input : JobEnqueueInput) → IsRow (new_job now fresh input)
new_job-IsRow now fresh input = ground arith

taken-RowStep :
    (now until : Time) (worker k : String) (x : Job)
    → StepsOn (can_take k) (taken now until worker) x
taken-RowStep now until worker k x e = (λ h. ground arith, ground arith)

pub take-Keeps :
    (now until : Time) (worker i : String) (js : Jobs)
    → IsTable js
    → Keeps js (take_job now until worker i js)
take-Keeps now until worker i js h =
    update-Keeps (can_take i) (taken now until worker) js
      (StepsOn-All (can_take i) (taken now until worker) (taken-RowStep now until worker i) js) h

acked-RowStep :
    (now : Time) (k worker : String) (epoch : ℤ) (x : Job)
    → StepsOn (holds_lease k worker epoch) (acked now) x
acked-RowStep now k worker epoch x e = (λ h. ground arith, ground arith)

dropped-RowStep : (now : Time) (k : String) (x : Job) → StepsOn (can_cancel k) (dropped now) x
dropped-RowStep now k x e = (λ h. ground arith, ground arith)

failed-RowStep :
    (now : Time) (input : JobFailInput) (next : Option Time) (c : Job)
    → owns input c ≡ true
    → RowStep c (
        failed now input
          (reaches (c.attempt_count + 1) c.max_attempts)
          (c.attempt_count + 1)
          next
          c)
failed-RowStep now input next c e = (λ h. ground arith, ground arith)

insert-Keeps :
    (now : Time) (fresh : String) (input : JobEnqueueInput) (js : Jobs) (dup : Option Job)
    → IsTable js
    → Keeps js (settle js (enqueue_or_existing now fresh input js dup)).1
unfolding enqueue_job
insert-Keeps now fresh input js (some d) h = elim (Option-cases (find (has_id d.job_id) js)) [
  | inl e ↦ rw e (Keeps-refl js h)
  | inr (j, e) ↦ rw e (Keeps-refl js h)
]
insert-Keeps now fresh input js none h =
    let job = new_job now fresh input in
    elim (Bool-cases (any (has_id job.job_id) js)) [
      | inl e ↦ rw e (Keeps-refl js h)
      | inr e ↦ rw e (
          stored (find (has_id job.job_id) (js ++ job ∷ []))
            (append-Keeps js job h (new_job-IsRow now fresh input) e))
    ]
  where
    stored :
        (o : Option Job)
        → Keeps js (js ++ new_job now fresh input ∷ [])
        → Keeps js
            (settle js (required o not_found >>= λ j. ok (j, js ++ new_job now fresh input ∷ []))).1
    stored none k = Keeps-refl js h
    stored (some j) k = k

pub enqueue-Keeps :
    (now : Time) (fresh : String) (input : JobEnqueueInput) (js : Jobs)
    → IsTable js
    → Keeps js (enqueue_job now fresh input js).1
unfolding enqueue_job
enqueue-Keeps now fresh input js h =
    insert-Keeps now fresh input js (find_duplicate input.dedupe_key js) h

-- Keeping is stated of the table that the transaction leaves.
lease_each-Keeps :
    (now until : Time) (worker : String) (ks : List String) (before js : Jobs)
    → IsTable before
    → Keeps before js
    → Keeps before (settle before (lease_each now until worker ks js)).1
unfolding lease_jobs
lease_each-Keeps now until worker [] before js h k = k
lease_each-Keeps now until worker (i ∷ ks) before js h k =
    let js' = take_job now until worker i js in
    let step = take-Keeps now until worker i js k.is_table in
    let ih = lease_each-Keeps now until worker ks before js' h (Keeps-trans before js js' k step) in
    ground (arith, Keeps-refl before h, ih)

pub lease-Keeps :
    (plus : Plus) (now : Time) (worker : String) (limit : ℕ) (duration : ℤ) (filter : Option String)
    (js : Jobs)
    → IsTable js
    → Keeps js (lease_jobs plus now worker limit duration filter js).1
unfolding lease_jobs
lease-Keeps plus now worker limit duration filter js h = elim (Option-cases (plus now duration)) [
  | inl e ↦ rw e (Keeps-refl js h)
  | inr (until, e) ↦ rw e (
      lease_each-Keeps now until worker (leasable_ids now filter limit js) js js h
        (Keeps-refl js h))
]

pub ack-Keeps :
    (now : Time) (k worker : String) (epoch : ℤ) (js : Jobs)
    → IsTable js
    → Keeps js (ack_job now k worker epoch js).1
unfolding ack_job
ack-Keeps now k worker epoch js h =
    let all =
      StepsOn-All (holds_lease k worker epoch) (acked now) (acked-RowStep now k worker epoch) js in
    let step = update-Keeps (holds_lease k worker epoch) (acked now) js all h in
    ground (arith, step)

pub cancel-Keeps :
    (now : Time) (k : String) (js : Jobs) → IsTable js → Keeps js (cancel_job now k js).1
unfolding cancel_job
cancel-Keeps now k js h =
    let all = StepsOn-All (can_cancel k) (dropped now) (dropped-RowStep now k) js in
    let step = update-Keeps (can_cancel k) (dropped now) js all h in ground (arith, step)

fail_found-Keeps :
    (now : Time) (input : JobFailInput) (next : Option Time) (c : Job) (js : Jobs)
    → IsTable js
    → find (has_id input.job_id) js ≡ some c
    → owns input c ≡ true
    → Keeps js (
        update_where
          (has_id input.job_id)
          (failed now input
            (reaches (c.attempt_count + 1) c.max_attempts)
            (c.attempt_count + 1)
            next)
          js)
fail_found-Keeps now input next c js h e o =
    let write =
      failed now input (reaches (c.attempt_count + 1) c.max_attempts) (c.attempt_count + 1) next in
    let steps =
      StepsOn-found input.job_id write c js h.unique e (failed-RowStep now input next c o) in
    update-Keeps (has_id input.job_id) write js steps h

pub fail-Keeps :
    (plus : Plus) (now : Time) (input : JobFailInput) (js : Jobs)
    → IsTable js
    → Keeps js (fail_job plus now input js).1
unfolding fail_job
fail-Keeps plus now input js h =
    settle_bind (Keeps js) js (get_job input.job_id js) _ same λ c found.
      settle_bind (Keeps js) js (ensure (owns input c) conflict) _ same λ u owned.
        let attempt = c.attempt_count + 1 in
        let terminal = reaches attempt c.max_attempts in
        let retry = next_run_after plus now terminal input.retry_after attempt in
        settle_bind (Keeps js) js retry _ same λ next e.
          let js' =
            update_where (has_id input.job_id) (failed now input terminal attempt next) js in
          settle_bind (Keeps js) js (get_job input.job_id js') _ same λ stored e'.
            fail_found-Keeps now input next c js h (required-some _ _ found)
              (ensure_holds _ _ owned)
  where
    same : Keeps js js
    same = Keeps-refl js h
