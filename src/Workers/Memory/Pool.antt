-- ===== src/Workers/Memory/Pool.antt =====
-- The workers of the in-memory queue, `_worker` of app/workers/queue.py: each event is what one
-- worker or client does between two awaits, so a list of events is an interleaving.
pub mod Locks
pub mod Evicted
use Prim.Native.String.{◌++◌ as str_append}
use gexpense_tracker_public.Prelude.{
  ℕ, String, Bool, true, not, Option, none, some, List, [], ◌∷◌, nat_eq, string_eq, get_elem?, set,
  replicate, if◌then◌else◌,
}
use gexpense_tracker_public.Prelude.Dict.{get, contains, put}
use gexpense_tracker_public.Prelude.Members.{mem, add, discard}
use gexpense_tracker_public.Workers.Task.{
  running, completed, failed, Task, TaskResult, mapping, output, Payload,
}
use gexpense_tracker_public.Workers.Memory.{
  TaskQueue, Readings, new_queue, cleanup_idempotency, put_in_queue, enqueue,
}

-- A worker waits for an id, sleeps after it put one back, or awaits a task's handler.
pub data Worker : Type 0 where
  waiting : Worker
  sleeping : Worker
  busy : Task → Worker

-- How a handler ends: with a dict, with another value, or by an exception.
pub data Outcome : Type 0 where
  returned_dict : String → Outcome
  returned : String → Outcome
  raised : String → Outcome

pub record Pool : Type 0 where
  pub queue : TaskQueue
  pub workers : List Worker

unfoldable pub can_start_task : Task → TaskQueue → Bool
unfolding mem
can_start_task task q =
    if string_eq.beq task.kind "sync" then not (mem task.user_id q.running_users) else true

unfoldable pub mark_user_running : Task → TaskQueue → TaskQueue
unfolding add
mark_user_running task q =
    if string_eq.beq task.kind "sync"
    then record q { running_users = add task.user_id q.running_users }
    else q

unfoldable pub mark_user_done : Task → TaskQueue → TaskQueue
unfolding discard
mark_user_done task q =
    if string_eq.beq task.kind "sync"
    then record q { running_users = discard task.user_id q.running_users }
    else q

-- The worker writes to the task object; `_tasks` shows it as long as it holds that object.
unfoldable pub write_task : Task → TaskQueue → TaskQueue
unfolding put get
write_task task q =
    if contains task.id q.tasks then record q { tasks = put task.id task q.tasks } else q

unfoldable pub mark_started : ℕ → Task → Task
mark_started now task = record task { status = running; started_at = some now }

unfoldable pub start_task : Task → ℕ → TaskQueue → TaskQueue × Worker
unfolding write_task mark_user_running mark_started mem
start_task task now q =
    if mem task.kind q.handlers
    then (
      mark_user_running task (write_task (mark_started now task) q),
      busy (mark_started now task),
    )
    else (
      write_task
          (record task {
            status = failed;
            error = some (str_append "No handler registered for task type: " task.kind);
            completed_at = some now;
          })
          q,
      waiting,
    )

-- From `self._tasks.get(task_id)` to the next await, with what the worker does then.
unfoldable pub dispatch : Option Task → ℕ → ℕ → TaskQueue → TaskQueue × Worker
unfolding start_task can_start_task put_in_queue
dispatch none task_id now q = (q, waiting)
dispatch (some task) task_id now q =
    if can_start_task task q then start_task task now q else (put_in_queue task_id q, sleeping)

-- The handler's end, the `finally` included.
unfoldable pub close_task : Outcome → ℕ → Task → Task
close_task (returned_dict d) now task = record task {
  result = some (mapping d);
  status = completed;
  completed_at = some now;
}
close_task (returned v) now task = record task {
  result = some (output v);
  status = completed;
  completed_at = some now;
}
close_task (raised e) now task = record task {
  status = failed;
  error = some e;
  completed_at = some now;
}

unfoldable pub finish_task : Outcome → ℕ → Task → TaskQueue → TaskQueue
unfolding close_task write_task mark_user_done
finish_task outcome now task q = mark_user_done task (write_task (close_task outcome now task) q)

unfoldable pub dispatch_head : List ℕ → ℕ → TaskQueue → TaskQueue × Worker
unfolding dispatch get
dispatch_head [] now q = (q, waiting)
dispatch_head (task_id ∷ rest) now q =
    dispatch (get task_id q.tasks) task_id now (record q { queue = rest })

-- Put the outcome of worker `i` back into the pool.
abbrev pub set_worker : ℕ → List Worker → TaskQueue × Worker → Pool
set_worker i ws (q, w) = record { queue = q; workers = set ws i w }

pub data Event : Type 0 where
  -- a client calls `enqueue`
  submit : ℕ → Readings → String → ℕ → Payload → Event
  -- worker `i` gets the head of the queue, at an instant
  fetch : ℕ → ℕ → Event
  -- worker `i` ends its sleep
  wake : ℕ → Event
  -- the handler that worker `i` awaits ends
  finish : ℕ → Outcome → ℕ → Event
  -- the periodic `cleanup_idempotency`
  cleanup : ℕ → Event

unfoldable pub fetch_task : Option Worker → ℕ → ℕ → Pool → Pool
unfolding dispatch_head
fetch_task (some waiting) i now p = set_worker i p.workers (dispatch_head p.queue.queue now p.queue)
fetch_task _ i now p = p

unfoldable pub wake_worker : Option Worker → ℕ → Pool → Pool
wake_worker (some sleeping) i p = record p { workers = set p.workers i waiting }
wake_worker _ i p = p

unfoldable pub end_task : Option Worker → ℕ → Outcome → ℕ → Pool → Pool
unfolding finish_task
end_task (some (busy task)) i outcome now p =
    set_worker i p.workers (finish_task outcome now task p.queue, waiting)
end_task _ i outcome now p = p

-- An event that the worker is not in a state for changes nothing.
unfoldable pub step : (String → ℕ → Payload → ℕ) → Event → Pool → Pool
unfolding fetch_task wake_worker end_task
step digest (submit task_id clock kind user_id payload) p = record p {
  queue = (enqueue digest task_id clock kind user_id payload p.queue).0;
}
step digest (fetch i now) p = fetch_task (get_elem? p.workers i) i now p
step digest (wake i) p = wake_worker (get_elem? p.workers i) i p
step digest (finish i outcome now) p = end_task (get_elem? p.workers i) i outcome now p
step digest (cleanup now) p = record p { queue = (cleanup_idempotency now p.queue).0 }

unfoldable pub run : (String → ℕ → Payload → ℕ) → List Event → Pool → Pool
unfolding step
run digest [] p = p
run digest (e ∷ es) p = run digest es (step digest e p)

-- `worker_loop` of a new queue
abbrev pub new_pool : List String → ℕ → Pool
new_pool handlers worker_count = record {
  queue = new_queue handlers;
  workers = replicate worker_count waiting;
}
