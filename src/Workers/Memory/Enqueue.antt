-- ===== src/Workers/Memory/Enqueue.antt =====
-- What a client of `enqueue` sees: repeated requests, and the bounded list of a user's tasks.
use gexpense_tracker_public.Prelude.{
  ℕ, ◌≤◌, ◌<◌, ◌-◌, String, ◌≡◌, refl, true, false, ◌∙◌, inl, inr, Option, none, some, List, [],
  ◌∷◌, ◌++◌, arith, nat_eq, length, take, drop, length-append, length-drop, take-append_le,
  Bool-cases,
}
use gexpense_tracker_public.Prelude.Dict.{
  get, get_or, put, remove, get-put, get-remove_all, length-put-le, length-remove-le,
}
use gexpense_tracker_public.Prelude.Members.{mem, mem-take}
use gexpense_tracker_public.Workers.Task.{
  Task, Payload, is_live, stable_payload, payload_hash, new_task,
}
use gexpense_tracker_public.Workers.Memory.{
  TaskQueue, Readings, idempotency_max_size, bound_idempotency, register_request, append_user_task,
  put_in_queue, create_task, live_task, reuse_or_create, enqueue, get_status,
}

-- The ids that `_user_tasks` lists for a user.
unfoldable pub listed : ℕ → TaskQueue → List ℕ
unfolding get_or get
listed u q = get_or u q.user_tasks []

-- No user has more than 100 tasks listed.
abbrev pub HasShortLists : TaskQueue → Type 0
HasShortLists q = (u : ℕ) → length (listed u q) ≤ 100

append_user_task-listed :
    (u t v : ℕ) (q : TaskQueue)
    → length (listed u q) ≤ 100
    → length (listed v q) ≤ 100
    → length (listed v (append_user_task u t q)) ≤ 100
unfolding listed append_user_task put get_or
append_user_task-listed u t v q hu hv = ground (
  arith,
  length-append (get_or u q.user_tasks []) (t ∷ []),
  length-drop (length (get_or u q.user_tasks [] ++ t ∷ []) - 80)
      (get_or u q.user_tasks [] ++ t ∷ []),
  get-put u v (get_or u q.user_tasks [] ++ t ∷ []) q.user_tasks,
  get-put u v
      (drop (length (get_or u q.user_tasks [] ++ t ∷ []) - 80) (get_or u q.user_tasks [] ++ t ∷ []))
      q.user_tasks,
)

user_tasks-bound_idempotency :
    (now : ℕ) (q : TaskQueue) → (bound_idempotency now q).user_tasks ≡ q.user_tasks
unfolding bound_idempotency
user_tasks-bound_idempotency now q = ground arith

tasks-bound_idempotency : (now : ℕ) (q : TaskQueue) → (bound_idempotency now q).tasks ≡ q.tasks
unfolding bound_idempotency
tasks-bound_idempotency now q = ground arith

idempotency-bound_idempotency :
    (now : ℕ) (q : TaskQueue)
    → length q.idempotency ≤ idempotency_max_size
    → bound_idempotency now q ≡ q
unfolding bound_idempotency
idempotency-bound_idempotency now q h = ground arith

create_task-HasShortLists :
    (k : ℕ) (task : Task) (clock : Readings) (q : TaskQueue)
    → HasShortLists q
    → HasShortLists (create_task k task clock q).0
unfolding create_task put_in_queue listed
create_task-HasShortLists k task clock q h v =
    append_user_task-listed task.user_id task.id v
      (bound_idempotency clock.pruned (register_request k task clock q))
      (rw user_tasks-bound_idempotency (unfold register_request in h task.user_id))
      (rw user_tasks-bound_idempotency (unfold register_request in h v))

reuse_or_create-HasShortLists :
    (found : Option ℕ) (k : ℕ) (task : Task) (clock : Readings) (q : TaskQueue)
    → HasShortLists q
    → HasShortLists (reuse_or_create found k task clock q).0
unfolding reuse_or_create
reuse_or_create-HasShortLists none k task clock q h = create_task-HasShortLists k task clock q h
reuse_or_create-HasShortLists (some t) k task clock q h =
    elim (Bool-cases (live_task (get t q.tasks))) [
      | inl live ↦ rw live h
      | inr dead ↦ rw dead (
          create_task-HasShortLists k task clock (record q { idempotency = remove k q.idempotency })
            (unfold listed in h))
    ]

-- `enqueue`, on every branch, leaves every user with at most 100 listed tasks.
enqueue-HasShortLists :
    (digest : String → ℕ → Payload → ℕ) (task_id : ℕ) (clock : Readings) (kind : String)
    (user_id : ℕ) (payload : Payload) (q : TaskQueue)
    → HasShortLists q
    → HasShortLists (enqueue digest task_id clock kind user_id payload q).0
unfolding enqueue
enqueue-HasShortLists digest task_id clock kind user_id payload q h =
    reuse_or_create-HasShortLists (get (payload_hash digest kind user_id payload) q.idempotency)
      (payload_hash digest kind user_id payload)
      (new_task task_id kind user_id payload clock.created) clock q h

-- A task that is not in the list before it is appended stays in `_tasks`.
tasks-append_user_task_self :
    (u t : ℕ) (q : TaskQueue)
    → mem t (listed u q) ≡ false
    → length (listed u q) ≤ 100
    → get t (append_user_task u t q).tasks ≡ get t q.tasks
unfolding listed append_user_task get_or
tasks-append_user_task_self u t q fresh short = ground (
  arith,
  length-append (get_or u q.user_tasks []) (t ∷ []),
  take-append_le (length (get_or u q.user_tasks [] ++ t ∷ []) - 80) (get_or u q.user_tasks [])
      (t ∷ []),
  mem-take (length (get_or u q.user_tasks [] ++ t ∷ []) - 80) t (get_or u q.user_tasks []),
  get-remove_all
      (take (length (get_or u q.user_tasks [] ++ t ∷ []) - 80) (get_or u q.user_tasks [] ++ t ∷ []))
      t q.tasks,
)

-- With 100 tasks listed, the next one pops the oldest 21 from `_tasks`.
tasks-append_user_task_old :
    (u t old : ℕ) (q : TaskQueue)
    → length (listed u q) ≡ 100
    → mem old (take 21 (listed u q)) ≡ true
    → get old (append_user_task u t q).tasks ≡ none
unfolding listed append_user_task get_or
tasks-append_user_task_old u t old q full there =
    let grown : length (get_or u q.user_tasks [] ++ t ∷ []) ≡ 101 =
      omega (arith, full, length-append (get_or u q.user_tasks []) (t ∷ [])) in
    rw grown (
      rw (take-append_le 21 (get_or u q.user_tasks []) (t ∷ []) (omega (arith, full)))
        (ground (arith, get-remove_all (take 21 (get_or u q.user_tasks [])) old q.tasks)))

idempotency-append_user_task :
    (u t : ℕ) (q : TaskQueue) → (append_user_task u t q).idempotency ≡ q.idempotency
unfolding append_user_task
idempotency-append_user_task u t q = ground arith

-- A new task is found under its request's key and under its id.
module _ (k : ℕ) (task : Task) (clock : Readings) (q : TaskQueue)
    (room : length q.idempotency < idempotency_max_size)
    (fresh : mem task.id (listed task.user_id q) ≡ false)
    (short : length (listed task.user_id q) ≤ 100) where
  bound-register :
      bound_idempotency clock.pruned (register_request k task clock q)
      ≡ register_request k task clock q
  bound-register =
      idempotency-bound_idempotency clock.pruned (register_request k task clock q)
        (unfold register_request in omega (arith, length-put-le k task.id q.idempotency))

  key-create_task : get k (create_task k task clock q).0.idempotency ≡ some task.id
  unfolding create_task put_in_queue
  key-create_task = rw bound-register (
      rw idempotency-append_user_task (
        unfold register_request in
        ground (arith, get-put k k task.id q.idempotency, nat_eq.beq_iff k k)))

  task-create_task : get task.id (create_task k task clock q).0.tasks ≡ some task
  unfolding create_task put_in_queue
  task-create_task = rw bound-register (
      tasks-append_user_task_self task.user_id task.id (register_request k task clock q)
        (unfold listed register_request in fresh) (unfold listed register_request in short)
      ∙ unfold register_request in
        ground (arith, get-put task.id task.id task q.tasks, nat_eq.beq_iff task.id task.id))

-- What the queue holds after a request: the key names the returned task, and that is live.
HoldsLive : ℕ → TaskQueue × ℕ → Type 0
HoldsLive k (q, t) = (get k q.idempotency ≡ some t) × (live_task (get t q.tasks) ≡ true)

create_task-HoldsLive :
    (k : ℕ) (task : Task) (clock : Readings) (q : TaskQueue)
    → is_live task.status ≡ true
    → length q.idempotency < idempotency_max_size
    → mem task.id (listed task.user_id q) ≡ false
    → length (listed task.user_id q) ≤ 100
    → HoldsLive k (create_task k task clock q)
unfolding HoldsLive live_task
create_task-HoldsLive k task clock q new room fresh short =
    let found = key-create_task k task clock q room fresh short in
    let stored = task-create_task k task clock q room fresh short in
    unfold create_task in (found, rw stored new)

reuse_or_create-HoldsLive :
    (found : Option ℕ) (k : ℕ) (task : Task) (clock : Readings) (q : TaskQueue)
    → get k q.idempotency ≡ found
    → is_live task.status ≡ true
    → length q.idempotency < idempotency_max_size
    → mem task.id (listed task.user_id q) ≡ false
    → length (listed task.user_id q) ≤ 100
    → HoldsLive k (reuse_or_create found k task clock q)
unfolding reuse_or_create
reuse_or_create-HoldsLive none k task clock q e new room fresh short =
    create_task-HoldsLive k task clock q new room fresh short
reuse_or_create-HoldsLive (some t) k task clock q e new room fresh short =
    elim (Bool-cases (live_task (get t q.tasks))) [
      | inl live ↦ rw live (unfold HoldsLive in (e, live))
      | inr dead ↦ rw dead (
          create_task-HoldsLive k task clock (record q { idempotency = remove k q.idempotency }) new
            (omega (arith, length-remove-le k q.idempotency)) (unfold listed in fresh)
            (unfold listed in short))
    ]

-- A request whose key names a live task returns that and changes nothing.
reuse_or_create_live :
    (k : ℕ) (task : Task) (clock : Readings) (r : TaskQueue × ℕ)
    → HoldsLive k r
    → reuse_or_create (get k r.0.idempotency) k task clock r.0 ≡ r
unfolding HoldsLive reuse_or_create
reuse_or_create_live k task clock r h = rw h.0 (rw h.1)

-- A repeated request: after an `enqueue` that made or found a task, one of the same type, user and
-- stable payload returns the same id and changes nothing, whatever its clock. The keys must have
-- room for one more, the new uuid must not be listed for the user, and its list be short.
pub enqueue_repeat :
    (digest : String → ℕ → Payload → ℕ) (task_id : ℕ) (clock : Readings) (kind : String)
    (user_id : ℕ) (payload : Payload) (q : TaskQueue) (task_id' : ℕ) (clock' : Readings)
    (payload' : Payload)
    → stable_payload payload' ≡ stable_payload payload
    → length q.idempotency < idempotency_max_size
    → mem task_id (listed user_id q) ≡ false
    → length (listed user_id q) ≤ 100
    → let r = enqueue digest task_id clock kind user_id payload q in
      enqueue digest task_id' clock' kind user_id payload' r.0 ≡ r
unfolding enqueue payload_hash
enqueue_repeat digest task_id clock kind user_id payload q task_id' clock' payload' same room fresh
      short =
    rw same (
      reuse_or_create_live (digest kind user_id (stable_payload payload))
        (new_task task_id' kind user_id payload' clock'.created) clock'
        (reuse_or_create (get (digest kind user_id (stable_payload payload)) q.idempotency)
          (digest kind user_id (stable_payload payload))
          (new_task task_id kind user_id payload clock.created) clock q)
        (reuse_or_create-HoldsLive
          (get (digest kind user_id (stable_payload payload)) q.idempotency)
          (digest kind user_id (stable_payload payload))
          (new_task task_id kind user_id payload clock.created) clock q refl
          (unfold new_task is_live in refl) room (unfold new_task in fresh)
          (unfold new_task in short)))

listed-bound_register :
    (u k : ℕ) (task : Task) (clock : Readings) (q : TaskQueue)
    → listed u (bound_idempotency clock.pruned (register_request k task clock q)) ≡ listed u q
unfolding listed register_request
listed-bound_register u k task clock q = rw user_tasks-bound_idempotency refl

queue-create_task :
    (k : ℕ) (task : Task) (clock : Readings) (q : TaskQueue)
    → (create_task k task clock q).0.queue ≡ q.queue ++ task.id ∷ []
unfolding create_task put_in_queue append_user_task bound_idempotency register_request
queue-create_task k task clock q = ground arith

-- The eviction: a request that makes a task for a user with 100 listed ones forgets each of the
-- oldest 21, in whatever status it is; a pending one is still in the queue of ids.
pub create_task_evicts :
    (k : ℕ) (task : Task) (clock : Readings) (q : TaskQueue) (old : ℕ)
    → length (listed task.user_id q) ≡ 100
    → mem old (take 21 (listed task.user_id q)) ≡ true
    → (get_status old (create_task k task clock q).0 ≡ none)
      × ((create_task k task clock q).0.queue ≡ q.queue ++ task.id ∷ [])
unfolding create_task put_in_queue get_status
create_task_evicts k task clock q old full there = (
  tasks-append_user_task_old task.user_id task.id old
      (bound_idempotency clock.pruned (register_request k task clock q))
      (rw listed-bound_register full) (rw listed-bound_register there),
  queue-create_task k task clock q,
)
