-- ===== src/Workers/Memory.antt =====
-- `class TaskQueue` of app/workers/queue.py: the in-memory queue and its workers. The queue is made
-- with `maxsize=0`, so that a `put` never waits. What runs between two awaits is one operation.
pub mod Keys
pub mod Enqueue
pub mod Pool
use gexpense_tracker_public.Prelude.{
  ℕ, ◌+◌, ◌-◌, String, ◌≡◌, Bool, true, false, Option, none, some, List, [], ◌∷◌, ◌++◌, nat_eq,
  string_eq, ltb, leb, length, take, drop, filter, if◌then◌else◌,
}
use gexpense_tracker_public.Prelude.Dict.{Dict, keys, get, get_or, put, remove, remove_all}
use gexpense_tracker_public.Prelude.Members.{mem, add, discard}
use gexpense_tracker_public.Prelude.Sort.{sorted}
use gexpense_tracker_public.Workers.Task.{
  seconds, TaskStatus, pending, running, failed, Task, Payload, new_task, is_live, payload_hash,
}

abbrev pub idempotency_max_size : ℕ
idempotency_max_size = 10000

abbrev pub idempotency_ttl_seconds : ℕ
idempotency_ttl_seconds = 3600

pub record TaskQueue : Type 0 where
  pub queue : List ℕ
  pub tasks : Dict ℕ Task
  pub user_tasks : Dict ℕ (List ℕ)
  pub idempotency : Dict ℕ ℕ
  pub idempotency_timestamps : Dict ℕ ℕ
  pub running_users : List ℕ
  pub handlers : List String

-- `TaskQueue.__init__`, and the task types that `register_handler` was called with
abbrev pub new_queue : List String → TaskQueue
new_queue handlers = record {
  queue = [];
  tasks = [];
  user_tasks = [];
  idempotency = [];
  idempotency_timestamps = [];
  running_users = [];
  handlers = handlers;
}

-- `now - ts > _IDEMPOTENCY_TTL_SECONDS`; a clock that was set back gives a negative age
unfoldable pub is_stale : ℕ → ℕ → Bool
is_stale now ts = ltb (seconds idempotency_ttl_seconds) (now - ts)

unfoldable pub stale_keys : ℕ → Dict ℕ ℕ → List ℕ
unfolding is_stale
stale_keys now [] = []
stale_keys now ((k, ts) ∷ d) =
    let rest = stale_keys now d in if is_stale now ts then k ∷ rest else rest

-- `pop` the keys from both dicts
unfoldable pub drop_keys : List ℕ → TaskQueue → TaskQueue
unfolding remove_all
drop_keys ks q = record q {
  idempotency = remove_all ks q.idempotency;
  idempotency_timestamps = remove_all ks q.idempotency_timestamps;
}

-- `sorted(timestamps.keys(), key=lambda k: timestamps[k])`
unfoldable pub sorted_keys : Dict ℕ ℕ → List ℕ
unfolding sorted get_or
sorted_keys d = sorted (λ k. get_or k d 0) (keys d)

unfoldable pub prune_idempotency : ℕ → TaskQueue → TaskQueue
unfolding drop_keys sorted_keys stale_keys
prune_idempotency now q =
    let q' = drop_keys (stale_keys now q.idempotency_timestamps) q in
    if leb (length q'.idempotency) idempotency_max_size
    then q'
    else drop_keys
        (take (length q'.idempotency - idempotency_max_size)
          (sorted_keys q'.idempotency_timestamps))
        q'

-- `cleanup_idempotency`, with the number of keys that it popped
unfoldable pub cleanup_idempotency : ℕ → TaskQueue → TaskQueue × ℕ
unfolding drop_keys stale_keys
cleanup_idempotency now q =
    let stale = stale_keys now q.idempotency_timestamps in (drop_keys stale q, length stale)

-- The user's list of tasks gets the new one; past 100 entries only the last 80 stay, and the tasks
-- of the others are popped.
unfoldable pub append_user_task : ℕ → ℕ → TaskQueue → TaskQueue
unfolding get_or put remove_all
append_user_task user_id task_id q =
    let user_list = get_or user_id q.user_tasks [] ++ task_id ∷ [] in
    if ltb 100 (length user_list)
    then record q {
      user_tasks = put user_id (drop (length user_list - 80) user_list) q.user_tasks;
      tasks = remove_all (take (length user_list - 80) user_list) q.tasks;
    }
    else record q { user_tasks = put user_id user_list q.user_tasks }

-- The clock readings of one call of `enqueue`: `created_at`, the key's stamp, and that of a prune.
pub record Readings : Type 0 where
  pub created : ℕ
  pub stamped : ℕ
  pub pruned : ℕ

unfoldable pub register_request : ℕ → Task → Readings → TaskQueue → TaskQueue
unfolding put
register_request idem_key task clock q = record q {
  tasks = put task.id task q.tasks;
  idempotency = put idem_key task.id q.idempotency;
  idempotency_timestamps = put idem_key clock.stamped q.idempotency_timestamps;
}

unfoldable pub bound_idempotency : ℕ → TaskQueue → TaskQueue
unfolding prune_idempotency
bound_idempotency now q =
    if ltb idempotency_max_size (length q.idempotency) then prune_idempotency now q else q

unfoldable pub put_in_queue : ℕ → TaskQueue → TaskQueue
put_in_queue task_id q = record q { queue = q.queue ++ task_id ∷ [] }

-- The part of `enqueue` below the test of the key.
unfoldable pub create_task : ℕ → Task → Readings → TaskQueue → TaskQueue × ℕ
create_task idem_key task clock q = (
  put_in_queue task.id (
      append_user_task task.user_id task.id
        (bound_idempotency clock.pruned (register_request idem_key task clock q))),
  task.id,
)

-- `task and task.status in (pending, running)`
unfoldable pub live_task : Option Task → Bool
unfolding is_live
live_task none = false
live_task (some task) = is_live task.status

-- What `enqueue` does with the task that holds the request's key, if any.
unfoldable pub reuse_or_create : Option ℕ → ℕ → Task → Readings → TaskQueue → TaskQueue × ℕ
unfolding live_task get remove
reuse_or_create none idem_key task clock q = create_task idem_key task clock q
reuse_or_create (some existing) idem_key task clock q =
    if live_task (get existing q.tasks)
    then (q, existing)
    else create_task idem_key task clock (record q { idempotency = remove idem_key q.idempotency })

-- `enqueue`; `task_id` is the uuid that a new task gets.
unfoldable pub enqueue :
    (String → ℕ → Payload → ℕ) → ℕ → Readings → String → ℕ → Payload → TaskQueue → TaskQueue × ℕ
enqueue digest task_id clock kind user_id payload q =
    let idem_key = payload_hash digest kind user_id payload in
    reuse_or_create (get idem_key q.idempotency) idem_key
      (new_task task_id kind user_id payload clock.created) clock q

-- `get_status`, as the task that it would print
unfoldable pub get_status : ℕ → TaskQueue → Option Task
unfolding get
get_status task_id q = get task_id q.tasks
