-- ===== src/Workers/Tests.antt =====
-- Runs of the task queues, and its theorems at concrete queues.
use gexpense_tracker_public.Prelude.{
  ℕ, zero, suc, ◌+◌, ◌≤◌, String, ◌≡◌, refl, true, none, some, List, [], ◌∷◌, arith, nat_eq, length,
}
use gexpense_tracker_public.Prelude.Dict.{Dict, get, get_or}
use gexpense_tracker_public.Prelude.Members.{mem}
use gexpense_tracker_public.Prelude.Text.{Text, codes, text_eq}
use gexpense_tracker_public.Workers.Redis.{
  RedisTask, RedisState, redis_task, queue_key, pop, live_redis_task, enqueue_redis, task_of,
  begin_popped, fail_task,
}
use gexpense_tracker_public.Workers.Redis.Order.{pop-enqueue_redis, enqueue_redis_repeat}
use gexpense_tracker_public.Workers.Redis.Retries.{
  Try, fail_once, fail_all, AllWait, GivenUp, fail_all-dlq,
}
use gexpense_tracker_public.Workers.Task.{
  running, Task, Payload, new_task, stable_payload, payload_hash,
}
use gexpense_tracker_public.Workers.Memory.{
  TaskQueue, Readings, new_queue, enqueue, create_task, get_status, reuse_or_create,
  append_user_task, bound_idempotency, register_request,
}
use gexpense_tracker_public.Workers.Memory.Keys.{IsBounded, enqueue-IsBounded}
use gexpense_tracker_public.Workers.Memory.Enqueue.{listed, enqueue_repeat}
use gexpense_tracker_public.Workers.Memory.Pool.{
  Pool, waiting, busy, Event, submit, fetch, finish, raised, run, step, new_pool, can_start_task,
}
use gexpense_tracker_public.Workers.Memory.Pool.Locks.{
  syncs_running, one_sync_per_user, end_task_frees_user,
}
use gexpense_tracker_public.Workers.Memory.Pool.Evicted.{evicted_task_never_runs}

-- A digest for tests: the user and the number of entries that count.
abbrev digest : String → ℕ → Payload → ℕ
digest kind user_id payload = user_id

abbrev clock : Readings
clock = record { created = 10; stamped = 11; pruned = 12 }

abbrev handlers : List String
handlers = "sync" ∷ []

abbrev manual : Payload
manual = ("trigger", "\"manual\"") ∷ ("full", "true") ∷ []

abbrev scheduled : Payload
scheduled = ("full", "true") ∷ ("run_at", "\"2024-01-01\"") ∷ []

new_queue-IsBounded : IsBounded (new_queue handlers)
unfolding get
new_queue-IsBounded = record {
  has_keys = record { nodup = tt; agree = λ k. refl };
  size = omega arith;
}

enqueue-IsBounded_example :
    IsBounded (enqueue digest 1 clock "sync" 7 manual (new_queue handlers)).0
enqueue-IsBounded_example =
    enqueue-IsBounded digest 1 clock "sync" 7 manual (new_queue handlers) new_queue-IsBounded

same_request : stable_payload scheduled ≡ stable_payload manual
unfolding stable_payload
same_request = refl

enqueue_repeat_example :
    let r = enqueue digest 1 clock "sync" 7 manual (new_queue handlers) in
    enqueue digest 2 clock "sync" 7 scheduled r.0 ≡ r
unfolding listed get_or get mem
enqueue_repeat_example =
    enqueue_repeat digest 1 clock "sync" 7 manual (new_queue handlers) 2 clock scheduled
      same_request (omega arith) refl (omega arith)

-- Two syncs of one user with different digests: the second worker puts the second back.
abbrev by_size : String → ℕ → Payload → ℕ
by_size kind user_id payload = length payload

abbrev history : List Event
history = submit 1 clock "sync" 7 [] ∷ submit 2 clock "sync" 7 manual ∷ fetch 0 20 ∷ fetch 1 21 ∷ []

one_running : syncs_running 7 (run by_size history (new_pool handlers 3)).workers ≡ 1
unfolding run syncs_running enqueue reuse_or_create create_task payload_hash new_task
    append_user_task bound_idempotency register_request stable_payload
one_running = refl

one_sync_per_user_example : syncs_running 7 (run by_size history (new_pool handlers 3)).workers ≤ 1
one_sync_per_user_example = one_sync_per_user by_size handlers 3 history 7

abbrev sync_of : ℕ → Task
sync_of id = record {
  id = id;
  kind = "sync";
  user_id = 7;
  status = running;
  payload = [];
  result = none;
  created_at = 10;
  started_at = some 20;
  completed_at = none;
  error = none;
}

abbrev one_busy : Pool
one_busy = record {
  queue = record (new_queue handlers) { running_users = 7 ∷ [] };
  workers = busy (sync_of 1) ∷ waiting ∷ [];
}

end_task_frees_user_example :
    can_start_task (sync_of 2) (step digest (finish 0 (raised "boom") 30) one_busy).queue ≡ true
end_task_frees_user_example =
    end_task_frees_user digest 0 30 (raised "boom") (sync_of 1) (sync_of 2) one_busy refl refl refl

abbrev count_down : ℕ → List ℕ
count_down zero = []
count_down (suc n) = n ∷ count_down n

-- A user with 100 listed tasks, the oldest of which still waits in the queue.
abbrev crowded : TaskQueue
crowded = record (new_queue handlers) {
  queue = 99 ∷ [];
  tasks = (99, sync_of 99) ∷ [];
  user_tasks = (7, count_down 100) ∷ [];
}

evicted_task_never_runs_example :
    let q = (create_task 5 (sync_of 500) clock crowded).0 in
    (get_status 99 q ≡ none)
    × (step digest
          (fetch 0 40)
          (record { queue = record q { queue = 99 ∷ [] }; workers = waiting ∷ [] })
        ≡ record { queue = record q { queue = [] }; workers = waiting ∷ [] })
unfolding listed get_or get mem
evicted_task_never_runs_example =
    evicted_task_never_runs digest 5 (sync_of 500) clock crowded 99 0 40 [] (waiting ∷ []) refl refl
      refl

-- A sync in Redis that fails three times.
abbrev sync_task : RedisTask
sync_task = redis_task (λ text. some text) (codes "sync") 7 [] (codes "high") 5

abbrev one_task : RedisState
one_task = record {
  tasks = (1, sync_task) ∷ [];
  idempotency = [];
  queues = [];
  user_tasks = [];
  running_syncs = [];
  dlq = [];
  processed_count = 0;
  failed_count = 0;
}

abbrev try_at : ℕ → Try
try_at n = record { started = n; ended = n + 1; error = "no network" }

abbrev failed_twice : RedisState
failed_twice =
    fail_all (λ s. some 0) (λ n. "later") (codes "sync" ∷ []) 3 1 (try_at 10 ∷ try_at 20 ∷ [])
      one_task

fail_all-dlq_example :
    (failed_twice.dlq ≡ [])
    × AllWait
        (λ s. some 0)
        (λ n. "later")
        (codes "sync" ∷ [])
        3
        1
        (try_at 10 ∷ try_at 20 ∷ [])
        one_task
    × GivenUp
        (λ s. some 0)
        (λ n. "later")
        (codes "sync" ∷ [])
        3
        1
        (try_at 30)
        failed_twice
        (fail_once (λ s. some 0) (λ n. "later") (codes "sync" ∷ []) 3 1 (try_at 30) failed_twice)
unfolding task_of redis_task begin_popped fail_all fail_once fail_task text_eq
fail_all-dlq_example =
    fail_all-dlq (λ s. some 0) (λ n. "later") (codes "sync" ∷ []) 3 1 (try_at 10 ∷ try_at 20 ∷ [])
      (try_at 30) one_task refl (refl, (refl, tt)) refl

abbrev redis_digest : Text → ℕ → Payload → ℕ
redis_digest kind user_id payload = user_id

pop-enqueue_redis_example :
    (queues : Dict Text (List ℕ)) × (pop
        (queue_key (codes "sync") (codes "high") ∷ [])
        (enqueue_redis
          (λ text. some text)
          redis_digest
          2
          6
          (codes "sync")
          8
          []
          (codes "high")
          one_task).0.queues
      ≡ some (2, queues))
unfolding live_redis_task
pop-enqueue_redis_example =
    pop-enqueue_redis (λ text. some text) redis_digest 2 6 (codes "sync") 8 [] (codes "high") []
      one_task refl

-- The second request comes with another uuid, clock and priority.
enqueue_redis_repeat_example :
    (let first =
        enqueue_redis
          (λ text. some text)
          redis_digest
          2
          6
          (codes "sync")
          8
          []
          (codes "high")
          one_task in
      enqueue_redis (λ text. some text) redis_digest 3 9 (codes "sync") 8 [] (codes "low") first.0
      ≡ first)
enqueue_redis_repeat_example =
    enqueue_redis_repeat (λ text. some text) redis_digest 2 3 6 9 (codes "sync") 8 [] []
      (codes "high") (codes "low") one_task refl
