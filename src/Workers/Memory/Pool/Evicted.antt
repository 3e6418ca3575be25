-- ===== src/Workers/Memory/Pool/Evicted.antt =====
-- What becomes of a queued task that `_user_tasks` has pushed out of `_tasks`.
use gexpense_tracker_public.Prelude.{
  ℕ, zero, suc, String, ◌≡◌, ap, true, none, some, List, [], ◌∷◌, nat_eq, length, take, get_elem?,
  set,
}
use gexpense_tracker_public.Prelude.Members.{mem}
use gexpense_tracker_public.Workers.Task.{Task, Payload}
use gexpense_tracker_public.Workers.Memory.{TaskQueue, Readings, create_task, get_status}
use gexpense_tracker_public.Workers.Memory.Enqueue.{listed, create_task_evicts}
use gexpense_tracker_public.Workers.Memory.Pool.{Worker, waiting, fetch, step}

set_same : (ws : List Worker) (i : ℕ) (w : Worker) → get_elem? ws i ≡ some w → set ws i w ≡ ws
set_same [] i w h = cc
set_same (x ∷ ws) zero w h = cc
set_same (x ∷ ws) (suc i) w h = ap (λ t. x ∷ t) (set_same ws i w h)

-- A worker that gets an id with no task only takes it off the queue: it runs nothing.
fetch_unknown :
    (digest : String → ℕ → Payload → ℕ) (i now t : ℕ) (rest : List ℕ) (q : TaskQueue)
    (ws : List Worker)
    → get_elem? ws i ≡ some waiting
    → get_status t q ≡ none
    → step digest (fetch i now) (record { queue = record q { queue = t ∷ rest }; workers = ws })
      ≡ record { queue = record q { queue = rest }; workers = ws }
unfolding step get_status
fetch_unknown digest i now t rest q ws idle gone =
    rw idle (rw gone (cc (set_same ws i waiting idle)))

-- A user's request that makes a 101st task loses each of the oldest 21 listed ones, in whatever
-- status it is: its status cannot be asked for, and when a waiting worker gets its id, it takes
-- the id off the queue and runs nothing, so that a pending task never runs.
pub evicted_task_never_runs :
    (digest : String → ℕ → Payload → ℕ) (k : ℕ) (task : Task) (clock : Readings) (q : TaskQueue)
    (old i now : ℕ) (rest : List ℕ) (ws : List Worker)
    → length (listed task.user_id q) ≡ 100
    → mem old (take 21 (listed task.user_id q)) ≡ true
    → get_elem? ws i ≡ some waiting
    → let q' = (create_task k task clock q).0 in
      (get_status old q' ≡ none)
      × (step digest
            (fetch i now)
            (record { queue = record q' { queue = old ∷ rest }; workers = ws })
          ≡ record { queue = record q' { queue = rest }; workers = ws })
evicted_task_never_runs digest k task clock q old i now rest ws full there idle =
    let gone = (create_task_evicts k task clock q old full there).0 in
    (gone, fetch_unknown digest i now old rest (create_task k task clock q).0 ws idle gone)
