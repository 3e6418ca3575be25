-- ===== src/Workers/Redis.antt =====
-- `RedisTaskQueue` of app/workers/queue.py, on the keys of Redis that it uses: each function is what
-- runs between two awaits that others can see, and a pipeline is one step. The entries that Redis
-- drops at the end of their time are left out. `digest` stands for the hash of a request, `to_iso` and
-- `from_iso` for `datetime.isoformat` and `fromisoformat`, which raises for none.
pub mod Order
pub mod Retries
use gexpense_tracker_public.Prelude.{
  ℕ, suc, ◌+◌, ◌*◌, ◌^◌, min, String, Bool, true, false, ◌||◌, Option, none, some, List, [], ◌∷◌,
  ◌++◌, ltb, take, length, map, if◌then◌else◌, is_some, nat_eq, string_eq,
}
use gexpense_tracker_public.Prelude.Text.{Text, codes, text_equality}
use gexpense_tracker_public.Prelude.Members.{mem, add, discard}
use gexpense_tracker_public.Prelude.Dict.{Dict, get, get_or, put, remove, contains}
use gexpense_tracker_public.Workers.Task.{
  seconds, TaskStatus, pending, running, completed, failed, TaskResult, Payload, is_live,
}

-- The hash of a task.
pub record RedisTask : Type 0 where
  pub kind : Text
  pub user_id : ℕ
  pub status : TaskStatus
  pub payload : Payload
  pub result : Option TaskResult
  pub created_at : ℕ
  pub started_at : Option ℕ
  pub completed_at : Option ℕ
  pub error : Option String
  pub priority : Text
  pub run_after : Option String
  pub retry_count : ℕ

pub record DlqEntry : Type 0 where
  pub task_id : ℕ
  pub kind : Text
  pub error : String
  pub failed_at : ℕ
  pub retry_count : ℕ

-- The keys with their prefixes: `task:`, `idem:`, `queue:`, `user_tasks:`, `running_syncs`,
-- `dlq:tasks`, `metrics:processed` and `metrics:failed`.
pub record RedisState : Type 0 where
  pub tasks : Dict ℕ RedisTask
  pub idempotency : Dict ℕ ℕ
  pub queues : Dict Text (List ℕ)
  pub user_tasks : Dict ℕ (List ℕ)
  pub running_syncs : List ℕ
  pub dlq : List DlqEntry
  pub processed_count : ℕ
  pub failed_count : ℕ

-- `_queue_key`
unfoldable pub queue_key : Text → Text → Text
queue_key kind priority =
    if text_equality.beq priority (codes "medium")
    then codes "queue:medium:" ++ kind
    else if text_equality.beq priority (codes "low")
    then codes "queue:low:" ++ kind
    else codes "queue:" ++ kind

-- `_all_queue_keys`
unfoldable pub all_queue_keys : List Text → List Text
unfolding queue_key
all_queue_keys handlers =
    map (λ kind. queue_key kind (codes "high")) handlers
    ++ (map (λ kind. queue_key kind (codes "medium")) handlers
        ++ map (λ kind. queue_key kind (codes "low")) handlers)

-- `pending_count`, of the lists without a priority only
unfoldable pub pending_count : List Text → Dict Text (List ℕ) → ℕ
unfolding get_or
pending_count [] queues = 0
pending_count (kind ∷ handlers) queues =
    length (get_or (codes "queue:" ++ kind) queues []) + pending_count handlers queues

-- `LPUSH`
unfoldable pub push_left : Text → ℕ → Dict Text (List ℕ) → Dict Text (List ℕ)
unfolding get_or put
push_left key task_id queues = put key (task_id ∷ get_or key queues []) queues

-- `RPUSH`
unfoldable pub push_right : Text → ℕ → Dict Text (List ℕ) → Dict Text (List ℕ)
unfolding get_or put
push_right key task_id queues = put key (get_or key queues [] ++ task_id ∷ []) queues

-- `BLPOP`, with none where it times out: the left end of the first list that is not empty
unfoldable pub pop : List Text → Dict Text (List ℕ) → Option (ℕ × Dict Text (List ℕ))
unfolding get_or put
pop [] queues = none
pop (key ∷ keys) queues =
    let later = pop keys queues in
    elim (get_or key queues []) [
      | [] ↦ later
      | task_id ∷ rest ↦ some (task_id, put key rest queues)
    ]

-- The task that the key of the request has, while it is pending or running.
unfoldable pub live_redis_task : ℕ → RedisState → Option ℕ
unfolding get is_live
live_redis_task idem_key r = elim (get idem_key r.idempotency) [
  | none ↦ none
  | some existing ↦ elim (get existing r.tasks) [
    | none ↦ none
    | some task ↦ if is_live task.status then some existing else none
  ]
]

-- The pipeline of `enqueue`.
unfoldable pub add_task : ℕ → ℕ → RedisTask → RedisState → RedisState
unfolding put get_or push_left queue_key
add_task task_id idem_key task r = record {
  tasks = put task_id task r.tasks;
  idempotency = put idem_key task_id r.idempotency;
  queues = push_left (queue_key task.kind task.priority) task_id r.queues;
  user_tasks =
      put task.user_id (take 100 (task_id ∷ get_or task.user_id r.user_tasks [])) r.user_tasks;
  running_syncs = r.running_syncs;
  dlq = r.dlq;
  processed_count = r.processed_count;
  failed_count = r.failed_count;
}

-- `if run_at_str`. `read_json` gives what `json` reads in a text, as Redis stores it, and none for a
-- value that Python tests as false.
unfoldable pub given : (String → Option String) → Option String → Option String
given read_json none = none
given read_json (some text) = read_json text

-- `task_mapping`
unfoldable pub redis_task : (String → Option String) → Text → ℕ → Payload → Text → ℕ → RedisTask
unfolding get remove given
redis_task read_json kind user_id payload priority now = record {
  kind = kind;
  user_id = user_id;
  status = pending;
  payload = remove "run_at" payload;
  result = none;
  created_at = now;
  started_at = none;
  completed_at = none;
  error = none;
  priority = priority;
  run_after = given read_json (get "run_at" payload);
  retry_count = 0;
}

-- `enqueue`, with the new uuid and the clock
unfoldable pub enqueue_redis :
    (String → Option String)
    → (Text → ℕ → Payload → ℕ)
    → ℕ
    → ℕ
    → Text
    → ℕ
    → Payload
    → Text
    → RedisState
    → RedisState × ℕ
unfolding live_redis_task add_task redis_task
enqueue_redis read_json digest task_id now kind user_id payload priority r =
    elim (live_redis_task (digest kind user_id payload) r) [
      | some existing ↦ (r, existing)
      | none ↦ (
        add_task task_id (digest kind user_id payload)
            (redis_task read_json kind user_id payload priority now) r,
        task_id,
      )
    ]

-- `get_tasks`: the listed tasks that are there
unfoldable pub tasks_listed : List ℕ → Dict ℕ RedisTask → List RedisTask
unfolding get
tasks_listed [] tasks = []
tasks_listed (task_id ∷ ids) tasks =
    let rest = tasks_listed ids tasks in
    elim (get task_id tasks) [ none ↦ rest | some task ↦ task ∷ rest ]

unfoldable pub get_tasks : ℕ → ℕ → RedisState → List RedisTask
unfolding get_or tasks_listed
get_tasks user_id limit r = tasks_listed (take limit (get_or user_id r.user_tasks [])) r.tasks

-- What a hash without fields reads as, where `HINCRBY` or `HSET` makes it.
abbrev pub no_fields : RedisTask
no_fields = record {
  kind = [];
  user_id = 0;
  status = pending;
  payload = [];
  result = none;
  created_at = 0;
  started_at = none;
  completed_at = none;
  error = none;
  priority = [];
  run_after = none;
  retry_count = 0;
}

-- The hash of a task, as it reads.
unfoldable pub task_of : ℕ → RedisState → RedisTask
unfolding get_or
task_of task_id r = get_or task_id r.tasks no_fields

-- `HSET` on the hash of a task
unfoldable pub set_task : ℕ → (RedisTask → RedisTask) → RedisState → RedisState
unfolding task_of put
set_task task_id f r = record r { tasks = put task_id (f (task_of task_id r)) r.tasks }

abbrev pub sync_kind : Text
sync_kind = codes "sync"

-- `_release_sync_lock`, for a sync
unfoldable pub release : Text → ℕ → RedisState → RedisState
unfolding discard
release kind user_id r =
    if text_equality.beq kind sync_kind
    then record r { running_syncs = discard user_id r.running_syncs }
    else r

-- What becomes of a task that a worker has popped: it is not there, its time cannot be read and the
-- worker ends, it waits again, it has no handler, or its handler starts.
pub data Popped : Type 0 where
  gone unreadable_time waits_again without_handler starts : Popped

-- The task waits again, at the right end of the list without a priority.
unfoldable pub requeue : ℕ → Text → RedisState → RedisState
unfolding push_right
requeue task_id kind r = record r { queues = push_right (codes "queue:" ++ kind) task_id r.queues }

unfoldable pub start_redis_task : ℕ → ℕ → Bool → RedisTask → RedisState → RedisState × Popped
unfolding set_task release
start_redis_task task_id now has_handler task r =
    if has_handler
    then (set_task task_id (λ t. record t { status = running; started_at = some now }) r, starts)
    else (
      release task.kind task.user_id (set_task task_id (λ t. record t { status = failed }) r),
      without_handler,
    )

-- `_try_acquire_sync_lock` for a sync, and the start
unfoldable pub lock_and_start : ℕ → ℕ → Bool → RedisTask → RedisState → RedisState × Popped
unfolding mem add start_redis_task requeue
lock_and_start task_id now has_handler task r =
    if text_equality.beq task.kind sync_kind
    then (if mem task.user_id r.running_syncs
        then (requeue task_id task.kind r, waits_again)
        else start_redis_task task_id now has_handler task
            (record r { running_syncs = add task.user_id r.running_syncs }))
    else start_redis_task task_id now has_handler task r

-- `run_after` of a task: none is no time, and none in it a text that is no time.
unfoldable pub due_time : (String → Option ℕ) → Option String → Option (Option ℕ)
due_time from_iso none = none
due_time from_iso (some text) = some (from_iso text)

-- `_worker`, from the popped task to the start of its handler
unfoldable pub begin_popped :
    (String → Option ℕ) → List Text → ℕ → ℕ → RedisState → RedisState × Popped
unfolding get requeue lock_and_start due_time
begin_popped from_iso handlers task_id now r = elim (get task_id r.tasks) [
  | none ↦ (r, gone)
  | some task ↦
      let go = lock_and_start task_id now (mem task.kind handlers) task r in
      elim (due_time from_iso task.run_after) [
        | none ↦ go
        | some none ↦ (r, unreadable_time)
        | some (some time) ↦ if ltb now time then (requeue task_id task.kind r, waits_again) else go
      ]
]

-- The handler has returned: the pipeline, and the lock.
unfoldable pub complete : ℕ → Text → ℕ → TaskResult → ℕ → RedisState → RedisState
unfolding set_task release
complete task_id kind user_id result now r =
    release kind user_id
      (record (set_task task_id
        (λ t. record t { status = completed; result = some result; completed_at = some now }) r) {
          processed_count = suc r.processed_count;
        })

-- `min(2 ** retry_count * 10, 300)`
unfoldable pub retry_delay : ℕ → ℕ
retry_delay retry_count = min (2 ^ retry_count * 10) 300

-- The task will be tried again.
unfoldable pub try_again : (ℕ → String) → ℕ → Text → String → ℕ → ℕ → RedisState → RedisState
unfolding set_task push_right retry_delay
try_again to_iso task_id kind error now retry_count r =
    let changed =
      set_task task_id
        (λ t. record t {
          status = pending;
          run_after = some (to_iso (now + seconds (retry_delay retry_count)));
          error = some error;
        })
        r in
    record changed {
      queues = push_right (codes "queue:" ++ kind) task_id changed.queues;
      failed_count = suc r.failed_count;
    }

-- The task is given up.
unfoldable pub give_up : ℕ → Text → String → ℕ → ℕ → RedisState → RedisState
unfolding set_task
give_up task_id kind error now retry_count r =
    let changed =
      set_task task_id
        (λ t. record t { status = failed; error = some error; completed_at = some now }) r in
    record changed {
      dlq =
          record {
            task_id = task_id;
            kind = kind;
            error = error;
            failed_at = now;
            retry_count = retry_count;
          }
          ∷ changed.dlq;
      failed_count = suc r.failed_count;
    }

-- `_handle_task_failure`
unfoldable pub handle_task_failure :
    (ℕ → String) → ℕ → ℕ → Text → String → ℕ → RedisState → RedisState
unfolding task_of set_task try_again give_up
handle_task_failure to_iso dlq_max_retries task_id kind error now r =
    let retry_count = suc (task_of task_id r).retry_count in
    let counted = set_task task_id (λ t. record t { retry_count = retry_count }) r in
    if ltb retry_count dlq_max_retries
    then try_again to_iso task_id kind error now retry_count counted
    else give_up task_id kind error now retry_count counted

-- The handler has failed or timed out: `_handle_task_failure`, and the lock.
unfoldable pub fail_task : (ℕ → String) → ℕ → ℕ → Text → ℕ → String → ℕ → RedisState → RedisState
unfolding handle_task_failure release
fail_task to_iso dlq_max_retries task_id kind user_id error now r =
    release kind user_id (handle_task_failure to_iso dlq_max_retries task_id kind error now r)
