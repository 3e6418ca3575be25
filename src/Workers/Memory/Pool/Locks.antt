-- ===== src/Workers/Memory/Pool/Locks.antt =====
-- `_running_users` names exactly the users whose sync a worker awaits, each once.
use gexpense_tracker_public.Prelude.{
  ℕ, zero, suc, ◌≤◌, ◌+◌, String, ◌≡◌, refl, true, Option, none, some, List, [], ◌∷◌, arith, nat_eq,
  string_eq, get_elem?, set, replicate, ◌==◌, if◌then◌else◌,
}
use gexpense_tracker_public.Prelude.Dict.{get, remove}
use gexpense_tracker_public.Prelude.Members.{
  mem-discard, count, count-add, count-discard, count-of_not_mem,
}
use gexpense_tracker_public.Workers.Task.{Task, Payload, payload_hash, new_task}
use gexpense_tracker_public.Workers.Memory.{
  TaskQueue, Readings, put_in_queue, enqueue, cleanup_idempotency, create_task, reuse_or_create,
  append_user_task, bound_idempotency, register_request,
}
use gexpense_tracker_public.Workers.Memory.Pool.{
  Worker, waiting, sleeping, busy, Pool, Event, submit, fetch, wake, finish, cleanup, Outcome,
  can_start_task, dispatch, dispatch_head, finish_task, fetch_task, wake_worker, end_task, step,
  run, new_pool,
}

-- Whether a worker awaits a sync of the user, as 1 or 0.
unfoldable pub holds : ℕ → Worker → ℕ
holds u waiting = 0
holds u sleeping = 0
holds u (busy task) =
    if string_eq.beq task.kind "sync" then (if task.user_id == u then 1 else 0) else 0

holds-waiting : (u : ℕ) → holds u waiting ≡ 0
unfolding holds
holds-waiting u = refl

holds-sleeping : (u : ℕ) → holds u sleeping ≡ 0
unfolding holds
holds-sleeping u = refl

-- How many workers await a sync of the user.
unfoldable pub syncs_running : ℕ → List Worker → ℕ
unfolding holds
syncs_running u [] = 0
syncs_running u (w ∷ ws) = holds u w + syncs_running u ws

-- The set of running users has each user once for the sync that runs, and at most one runs.
pub record LocksMatch (p : Pool) : Type 0 where
  pub owned : (u : ℕ) → syncs_running u p.workers ≡ count u p.queue.running_users
  pub single : (u : ℕ) → count u p.queue.running_users ≤ 1

syncs_running-set :
    (u i : ℕ) (ws : List Worker) (w v : Worker)
    → get_elem? ws i ≡ some w
    → syncs_running u (set ws i v) + holds u w ≡ syncs_running u ws + holds u v
unfolding syncs_running
syncs_running-set u i [] w v h = cc
syncs_running-set u zero (x ∷ ws) w v h = ground arith
syncs_running-set u (suc i) (x ∷ ws) w v h = omega (arith, syncs_running-set u i ws w v h)

-- What an operation of a worker that held nothing does to the locks.
abbrev Acquires : TaskQueue → TaskQueue × Worker → ℕ → Type 0
Acquires q (q', w) u =
    (count u q'.running_users ≡ count u q.running_users + holds u w)
    × (count u q.running_users ≤ 1 → count u q'.running_users ≤ 1)

dispatch-Acquires :
    (found : Option Task) (t now : ℕ) (q : TaskQueue) (u : ℕ)
    → Acquires q (dispatch found t now q) u
unfolding dispatch holds count
dispatch-Acquires none t now q u = (omega arith, λ h. h)
dispatch-Acquires (some task) t now q u =
    ground (
      arith,
      count-add task.user_id u q.running_users,
      count-of_not_mem task.user_id q.running_users,
    )

dispatch_head-Acquires :
    (ids : List ℕ) (now : ℕ) (q : TaskQueue) (u : ℕ) → Acquires q (dispatch_head ids now q) u
unfolding dispatch_head
dispatch_head-Acquires [] now q u = unfold holds in (omega arith, λ h. h)
dispatch_head-Acquires (t ∷ rest) now q u =
    dispatch-Acquires (get t q.tasks) t now (record q { queue = rest }) u

-- A handler's end gives up the lock of its task, and no other.
finish_task-releases :
    (outcome : Outcome) (now : ℕ) (task : Task) (q : TaskQueue) (u : ℕ)
    → count u q.running_users ≤ 1
    → holds u (busy task) ≤ count u q.running_users
    → count u (finish_task outcome now task q).running_users + holds u (busy task)
      ≡ count u q.running_users
unfolding finish_task holds
finish_task-releases outcome now task q u single owned =
    ground (arith, count-discard task.user_id u q.running_users)

-- `enqueue` and the cleanup do not touch the locks.
running_users-create_task :
    (k : ℕ) (task : Task) (clock : Readings) (q : TaskQueue)
    → (create_task k task clock q).0.running_users ≡ q.running_users
unfolding create_task append_user_task bound_idempotency register_request put_in_queue
running_users-create_task k task clock q = ground arith

running_users-reuse_or_create :
    (found : Option ℕ) (k : ℕ) (task : Task) (clock : Readings) (q : TaskQueue)
    → (reuse_or_create found k task clock q).0.running_users ≡ q.running_users
unfolding reuse_or_create
running_users-reuse_or_create none k task clock q = running_users-create_task k task clock q
running_users-reuse_or_create (some t) k task clock q = ground (
  arith,
  running_users-create_task k task clock (record q { idempotency = remove k q.idempotency }),
)

running_users-enqueue :
    (digest : String → ℕ → Payload → ℕ) (t : ℕ) (clock : Readings) (kind : String) (u : ℕ)
    (payload : Payload) (q : TaskQueue)
    → (enqueue digest t clock kind u payload q).0.running_users ≡ q.running_users
unfolding enqueue
running_users-enqueue digest t clock kind u payload q =
    running_users-reuse_or_create (get (payload_hash digest kind u payload) q.idempotency)
      (payload_hash digest kind u payload) (new_task t kind u payload clock.created) clock q

running_users-cleanup :
    (now : ℕ) (q : TaskQueue) → (cleanup_idempotency now q).0.running_users ≡ q.running_users
unfolding cleanup_idempotency
running_users-cleanup now q = refl

holds-le-syncs_running :
    (u i : ℕ) (ws : List Worker) (w : Worker)
    → get_elem? ws i ≡ some w
    → holds u w ≤ syncs_running u ws
unfolding syncs_running
holds-le-syncs_running u i [] w h = cc
holds-le-syncs_running u zero (x ∷ ws) w h = ground arith
holds-le-syncs_running u (suc i) (x ∷ ws) w h = omega (arith, holds-le-syncs_running u i ws w h)

fetch_task-LocksMatch :
    (o : Option Worker) (i now : ℕ) (p : Pool)
    → get_elem? p.workers i ≡ o
    → LocksMatch p
    → LocksMatch (fetch_task o i now p)
unfolding fetch_task
fetch_task-LocksMatch none i now p e m = m
fetch_task-LocksMatch (some (busy task)) i now p e m = m
fetch_task-LocksMatch (some sleeping) i now p e m = m
fetch_task-LocksMatch (some waiting) i now p e m = record {
  owned = λ u. omega (
    arith,
    (dispatch_head-Acquires p.queue.queue now p.queue u).0,
    syncs_running-set u i p.workers waiting (dispatch_head p.queue.queue now p.queue).1 e,
    m.owned u,
    holds-waiting u,
  );
  single = λ u. (dispatch_head-Acquires p.queue.queue now p.queue u).1 (m.single u);
}

wake_worker-LocksMatch :
    (o : Option Worker) (i : ℕ) (p : Pool)
    → get_elem? p.workers i ≡ o
    → LocksMatch p
    → LocksMatch (wake_worker o i p)
unfolding wake_worker
wake_worker-LocksMatch none i p e m = m
wake_worker-LocksMatch (some (busy task)) i p e m = m
wake_worker-LocksMatch (some waiting) i p e m = m
wake_worker-LocksMatch (some sleeping) i p e m = record {
  owned = λ u. omega (
    arith,
    syncs_running-set u i p.workers sleeping waiting e,
    m.owned u,
    holds-waiting u,
    holds-sleeping u,
  );
  single = m.single;
}

end_task-LocksMatch :
    (o : Option Worker) (i : ℕ) (outcome : Outcome) (now : ℕ) (p : Pool)
    → get_elem? p.workers i ≡ o
    → LocksMatch p
    → LocksMatch (end_task o i outcome now p)
unfolding end_task
end_task-LocksMatch none i outcome now p e m = m
end_task-LocksMatch (some waiting) i outcome now p e m = m
end_task-LocksMatch (some sleeping) i outcome now p e m = m
end_task-LocksMatch (some (busy task)) i outcome now p e m =
    let released = λ (u : ℕ).
      finish_task-releases outcome now task p.queue u (m.single u)
        (rw (← m.owned u) (holds-le-syncs_running u i p.workers (busy task) e)) in
    record {
      owned = λ u. omega (
        arith,
        released u,
        syncs_running-set u i p.workers (busy task) waiting e,
        m.owned u,
        holds-waiting u,
      );
      single = λ u. omega (arith, released u, m.single u);
    }

pub step-LocksMatch :
    (digest : String → ℕ → Payload → ℕ) (e : Event) (p : Pool)
    → LocksMatch p
    → LocksMatch (step digest e p)
unfolding step
step-LocksMatch digest (submit t clock kind u payload) p m = record {
  owned = λ v. rw running_users-enqueue (m.owned v);
  single = λ v. rw running_users-enqueue (m.single v);
}
step-LocksMatch digest (fetch i now) p m =
    fetch_task-LocksMatch (get_elem? p.workers i) i now p refl m
step-LocksMatch digest (wake i) p m = wake_worker-LocksMatch (get_elem? p.workers i) i p refl m
step-LocksMatch digest (finish i outcome now) p m =
    end_task-LocksMatch (get_elem? p.workers i) i outcome now p refl m
step-LocksMatch digest (cleanup now) p m = record {
  owned = λ v. rw running_users-cleanup (m.owned v);
  single = λ v. rw running_users-cleanup (m.single v);
}

-- Every event, whatever worker or client makes it, keeps the set of running users in step with
-- the syncs that the workers await, each user once.
pub run-LocksMatch :
    (digest : String → ℕ → Payload → ℕ) (es : List Event) (p : Pool)
    → LocksMatch p
    → LocksMatch (run digest es p)
unfolding run
run-LocksMatch digest [] p m = m
run-LocksMatch digest (e ∷ es) p m =
    run-LocksMatch digest es (step digest e p) (step-LocksMatch digest e p m)

syncs_running-replicate : (u n : ℕ) → syncs_running u (replicate n waiting) ≡ 0
unfolding syncs_running
syncs_running-replicate u zero = refl
syncs_running-replicate u (suc n) = omega (arith, syncs_running-replicate u n)

new_pool-LocksMatch : (handlers : List String) (n : ℕ) → LocksMatch (new_pool handlers n)
unfolding count
new_pool-LocksMatch handlers n = record {
  owned = λ u. syncs_running-replicate u n;
  single = λ u. omega arith;
}

-- In every interleaving of clients and workers from a new queue, no two workers await a sync of
-- the same user at the same time.
pub one_sync_per_user :
    (digest : String → ℕ → Payload → ℕ) (handlers : List String) (worker_count : ℕ)
    (es : List Event) (u : ℕ)
    → syncs_running u (run digest es (new_pool handlers worker_count)).workers ≤ 1
one_sync_per_user digest handlers n es u =
    let m = run-LocksMatch digest es (new_pool handlers n) (new_pool-LocksMatch handlers n) in
    omega (arith, m.owned u, m.single u)

finish_task_frees_user :
    (outcome : Outcome) (now : ℕ) (task other : Task) (q : TaskQueue)
    → other.user_id ≡ task.user_id
    → task.kind ≡ "sync"
    → can_start_task other (finish_task outcome now task q) ≡ true
unfolding can_start_task finish_task
finish_task_frees_user outcome now task other q same sync = ground (
  arith,
  string_eq.beq_iff task.kind "sync",
  mem-discard task.user_id other.user_id q.running_users,
)

-- When a handler ends, with a result or an exception, a waiting sync of its user can start: the
-- lock is never left behind.
pub end_task_frees_user :
    (digest : String → ℕ → Payload → ℕ) (i now : ℕ) (outcome : Outcome) (task other : Task)
    (p : Pool)
    → get_elem? p.workers i ≡ some (busy task)
    → other.user_id ≡ task.user_id
    → task.kind ≡ "sync"
    → can_start_task other (step digest (finish i outcome now) p).queue ≡ true
unfolding step
end_task_frees_user digest i now outcome task other p e same sync =
    rw e (finish_task_frees_user outcome now task other p.queue same sync)
