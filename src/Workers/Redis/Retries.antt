-- ===== src/Workers/Redis/Retries.antt =====
-- How often a task that fails is tried.
use gexpense_tracker_public.Prelude.{
  ℕ, suc, ◌+◌, ◌≡◌, refl, ap, sym, ◌∙◌, ◌++◌, ◌<◌, arith, String, Bool, true, false, Option, some,
  List, [], ◌∷◌, ltb, length, if-elim, Option-elim, nat_eq,
}
use mathlib.Core.Path.{subst}
use gexpense_tracker_public.Prelude.Members.{mem, add}
use gexpense_tracker_public.Prelude.Text.{Text, codes, text_equality}
use gexpense_tracker_public.Prelude.Dict.{get, get_or, get_or-put_same}
use gexpense_tracker_public.Workers.Task.{seconds, failed, pending, running}
use gexpense_tracker_public.Workers.Redis.{
  RedisTask, RedisState, task_of, no_fields, set_task, release, requeue, start_redis_task,
  lock_and_start, due_time, begin_popped, Popped, gone, unreadable_time, waits_again,
  without_handler, starts, push_right, sync_kind, retry_delay, try_again, give_up,
  handle_task_failure, fail_task,
}

task_of-set_task :
    (task_id : ℕ) (f : RedisTask → RedisTask) (r : RedisState)
    → task_of task_id (set_task task_id f r) ≡ f (task_of task_id r)
unfolding task_of set_task
task_of-set_task task_id f r =
    get_or-put_same task_id (f (get_or task_id r.tasks no_fields)) r.tasks no_fields

-- A failed task waits again: it is at the right end of the list of its kind, pending, and not
-- before the delay for the number of its failures has passed.
abbrev pub Waits : (ℕ → String) → ℕ → Text → ℕ → RedisState → RedisState → Type 0
Waits to_iso task_id kind ended r s =
    (s.queues ≡ push_right (codes "queue:" ++ kind) task_id r.queues)
    × ((task_of task_id s).status ≡ pending)
    × ((task_of task_id s).run_after
        ≡ some (to_iso (ended + seconds (retry_delay (suc (task_of task_id r).retry_count)))))

-- One failure, by the number of those before.
handle_task_failure-less :
    (to_iso : ℕ → String) (max_retries task_id : ℕ) (kind : Text) (error : String) (now : ℕ)
    (r : RedisState)
    → suc (task_of task_id r).retry_count < max_retries
    → (let s = handle_task_failure to_iso max_retries task_id kind error now r in
        (s.dlq ≡ r.dlq)
        × ((task_of task_id s).retry_count ≡ suc (task_of task_id r).retry_count)
        × Waits to_iso task_id kind now r s)
unfolding handle_task_failure try_again
handle_task_failure-less to_iso max_retries task_id kind error now r h =
    let n = suc (task_of task_id r).retry_count in
    let counted = set_task task_id (λ t. record t { retry_count = n }) r in
    let wait = λ (t : RedisTask). record t {
      status = pending;
      run_after = some (to_iso (now + seconds (retry_delay n)));
      error = some error;
    } in
    let waiting = task_of-set_task task_id wait counted in
    if-elim
      (λ (s : RedisState).
        (s.dlq ≡ r.dlq) × ((task_of task_id s).retry_count ≡ n) × Waits to_iso task_id kind now r s)
      (ltb n max_retries) (try_again to_iso task_id kind error now n counted)
      (give_up task_id kind error now n counted)
      (λ e. (
        refl,
        ap (λ (t : RedisTask). t.retry_count) waiting
            ∙ ap (λ (t : RedisTask). t.retry_count)
                (task_of-set_task task_id (λ t. record t { retry_count = n }) r),
        (
          refl,
          ap (λ (t : RedisTask). t.status) waiting,
          ap (λ (t : RedisTask). t.run_after) waiting,
        ),
      ))
      (λ e. absurd (ground (arith, e, h)))

handle_task_failure-last :
    (to_iso : ℕ → String) (max_retries task_id : ℕ) (kind : Text) (error : String) (now : ℕ)
    (r : RedisState)
    → suc (task_of task_id r).retry_count ≡ max_retries
    → (let s = handle_task_failure to_iso max_retries task_id kind error now r in
        (s.dlq
          ≡ record {
            task_id = task_id;
            kind = kind;
            error = error;
            failed_at = now;
            retry_count = max_retries;
          }
            ∷ r.dlq)
        × ((task_of task_id s).status ≡ failed)
        × (s.queues ≡ r.queues))
unfolding handle_task_failure give_up set_task
handle_task_failure-last to_iso max_retries task_id kind error now r h =
    let n = suc (task_of task_id r).retry_count in
    let counted = set_task task_id (λ t. record t { retry_count = n }) r in
    if-elim
      (λ (s : RedisState).
        (s.dlq
          ≡ record {
            task_id = task_id;
            kind = kind;
            error = error;
            failed_at = now;
            retry_count = max_retries;
          }
            ∷ r.dlq)
        × ((task_of task_id s).status ≡ failed)
        × (s.queues ≡ r.queues))
      (ltb n max_retries) (try_again to_iso task_id kind error now n counted)
      (give_up task_id kind error now n counted) (λ e. absurd (ground (arith, e, h)))
      (λ e. (
        ap
            (λ m.
              record {
                task_id = task_id;
                kind = kind;
                error = error;
                failed_at = now;
                retry_count = m;
              }
              ∷ r.dlq)
            h,
        ap (λ (t : RedisTask). t.status)
            (task_of-set_task task_id
              (λ t. record t { status = failed; error = some error; completed_at = some now })
              counted),
        refl,
      ))

-- What starting a popped task keeps: its count of failures and the tasks that were given up.
abbrev Keeps : ℕ → RedisState → RedisState → Type 0
Keeps task_id r s =
    ((task_of task_id s).retry_count ≡ (task_of task_id r).retry_count) × (s.dlq ≡ r.dlq)

release-tasks :
    (kind : Text) (user_id : ℕ) (s : RedisState)
    → ((release kind user_id s).tasks ≡ s.tasks)
      × ((release kind user_id s).dlq ≡ s.dlq)
      × ((release kind user_id s).queues ≡ s.queues)
unfolding release
release-tasks kind user_id s =
    if-elim (λ (t : RedisState). (t.tasks ≡ s.tasks) × (t.dlq ≡ s.dlq) × (t.queues ≡ s.queues))
      (text_equality.beq kind sync_kind) _ _ (λ e. (refl, refl, refl)) (λ e. (refl, refl, refl))

task_of-release :
    (task_id : ℕ) (kind : Text) (user_id : ℕ) (s : RedisState)
    → task_of task_id (release kind user_id s) ≡ task_of task_id s
unfolding task_of
task_of-release task_id kind user_id s =
    ap (λ tasks. get_or task_id tasks no_fields) (release-tasks kind user_id s).0

release-Keeps :
    (task_id : ℕ) (kind : Text) (user_id : ℕ) (r s : RedisState)
    → Keeps task_id r s
    → Keeps task_id r (release kind user_id s)
unfolding release task_of
release-Keeps task_id kind user_id r s h =
    if-elim (Keeps task_id r) (text_equality.beq kind sync_kind) _ _ (λ e. h) (λ e. h)

start_redis_task-Keeps :
    (task_id now : ℕ) (has_handler : Bool) (task : RedisTask) (r s : RedisState)
    → Keeps task_id r s
    → Keeps task_id r (start_redis_task task_id now has_handler task s).0
unfolding start_redis_task
start_redis_task-Keeps task_id now true task r s h = (
  ap (λ (t : RedisTask). t.retry_count)
        (task_of-set_task task_id (λ t. record t { status = running; started_at = some now }) s)
      ∙ h.0,
  h.1,
)
start_redis_task-Keeps task_id now false task r s h =
    release-Keeps task_id task.kind task.user_id r
      (set_task task_id (λ t. record t { status = failed }) s)
      (
        ap (λ (t : RedisTask). t.retry_count)
              (task_of-set_task task_id (λ t. record t { status = failed }) s)
            ∙ h.0,
        h.1,
      )

requeue-Keeps :
    (task_id : ℕ) (kind : Text) (r s : RedisState)
    → Keeps task_id r s
    → Keeps task_id r (requeue task_id kind s)
unfolding requeue task_of
requeue-Keeps task_id kind r s h = h

lock_and_start-Keeps :
    (task_id now : ℕ) (has_handler : Bool) (task : RedisTask) (r : RedisState)
    → Keeps task_id r (lock_and_start task_id now has_handler task r).0
unfolding lock_and_start task_of
lock_and_start-Keeps task_id now has_handler task r =
    if-elim (λ (s : RedisState × Popped). Keeps task_id r s.0)
      (text_equality.beq task.kind sync_kind) _ _
      (λ e.
        if-elim (λ (s : RedisState × Popped). Keeps task_id r s.0)
          (mem task.user_id r.running_syncs) (requeue task_id task.kind r, waits_again)
          (start_redis_task task_id now has_handler task
            (record r { running_syncs = add task.user_id r.running_syncs }))
          (λ f. requeue-Keeps task_id task.kind r r (refl, refl))
          (λ f.
            start_redis_task-Keeps task_id now has_handler task r
              (record r { running_syncs = add task.user_id r.running_syncs }) (refl, refl)))
      (λ e. start_redis_task-Keeps task_id now has_handler task r r (refl, refl))

-- Starting a popped task counts no failure and gives up no task.
begin_popped-Keeps :
    (from_iso : String → Option ℕ) (handlers : List Text) (task_id now : ℕ) (r : RedisState)
    → Keeps task_id r (begin_popped from_iso handlers task_id now r).0
unfolding begin_popped
begin_popped-Keeps from_iso handlers task_id now r =
    Option-elim (λ (s : RedisState × Popped). Keeps task_id r s.0) (get task_id r.tasks) _ _
      (λ e. (refl, refl))
      (λ task e.
        let go = lock_and_start task_id now (mem task.kind handlers) task r in
        let goes = lock_and_start-Keeps task_id now (mem task.kind handlers) task r in
        Option-elim (λ (s : RedisState × Popped). Keeps task_id r s.0)
          (due_time from_iso task.run_after) _ _ (λ f. goes)
          (λ due f.
            Option-elim (λ (s : RedisState × Popped). Keeps task_id r s.0) due _ _
              (λ g. (refl, refl))
              (λ time g.
                if-elim (λ (s : RedisState × Popped). Keeps task_id r s.0) (ltb now time)
                  (requeue task_id task.kind r, waits_again) go
                  (λ a. requeue-Keeps task_id task.kind r r (refl, refl)) (λ a. goes))))

-- The lists are kept where the handler starts.
abbrev StartKeeps : RedisState → RedisState × Popped → Type 0
StartKeeps r s = s.1 ≡ starts → s.0.queues ≡ r.queues

start_redis_task-StartKeeps :
    (task_id now : ℕ) (has_handler : Bool) (task : RedisTask) (r s : RedisState)
    → s.queues ≡ r.queues
    → StartKeeps r (start_redis_task task_id now has_handler task s)
unfolding start_redis_task set_task
start_redis_task-StartKeeps task_id now true task r s h e = h
start_redis_task-StartKeeps task_id now false task r s h e = absurd (cc)

lock_and_start-StartKeeps :
    (task_id now : ℕ) (has_handler : Bool) (task : RedisTask) (r : RedisState)
    → StartKeeps r (lock_and_start task_id now has_handler task r)
unfolding lock_and_start
lock_and_start-StartKeeps task_id now has_handler task r =
    if-elim (StartKeeps r) (text_equality.beq task.kind sync_kind) _ _
      (λ e.
        if-elim (StartKeeps r) (mem task.user_id r.running_syncs)
          (requeue task_id task.kind r, waits_again)
          (start_redis_task task_id now has_handler task
            (record r { running_syncs = add task.user_id r.running_syncs }))
          (λ f waits. absurd (cc))
          (λ f.
            start_redis_task-StartKeeps task_id now has_handler task r
              (record r { running_syncs = add task.user_id r.running_syncs }) refl))
      (λ e. start_redis_task-StartKeeps task_id now has_handler task r r refl)

begin_popped-StartKeeps :
    (from_iso : String → Option ℕ) (handlers : List Text) (task_id now : ℕ) (r : RedisState)
    → StartKeeps r (begin_popped from_iso handlers task_id now r)
unfolding begin_popped
begin_popped-StartKeeps from_iso handlers task_id now r =
    Option-elim (StartKeeps r) (get task_id r.tasks) _ _ (λ e waits. absurd (cc))
      (λ task e.
        let go = lock_and_start task_id now (mem task.kind handlers) task r in
        let goes = lock_and_start-StartKeeps task_id now (mem task.kind handlers) task r in
        Option-elim (StartKeeps r) (due_time from_iso task.run_after) _ _ (λ f. goes)
          (λ due f.
            Option-elim (StartKeeps r) due _ _ (λ g waits. absurd (cc))
              (λ time g.
                if-elim (StartKeeps r) (ltb now time) (requeue task_id task.kind r, waits_again) go
                  (λ a waits. absurd (cc)) (λ a. goes))))

-- A try of a task: when it is popped, and when and how its handler fails.
pub record Try : Type 0 where
  pub started : ℕ
  pub ended : ℕ
  pub error : String

module _ (from_iso : String → Option ℕ) (to_iso : ℕ → String) (handlers : List Text)
    (max_retries task_id : ℕ) where
  -- What follows the start of a popped task, where a handler that starts fails. The kind and the user
  -- are those of the hash that the worker has read.
  unfoldable pub after_start : Try → RedisTask → RedisState × Popped → RedisState
  after_start try task (r, starts) =
      fail_task to_iso max_retries task_id task.kind task.user_id try.error try.ended r
  after_start try task (r, gone) = r
  after_start try task (r, unreadable_time) = r
  after_start try task (r, waits_again) = r
  after_start try task (r, without_handler) = r

  unfoldable pub fail_once : Try → RedisState → RedisState
  unfolding after_start
  fail_once try r =
      after_start try (task_of task_id r) (begin_popped from_iso handlers task_id try.started r)

  unfoldable pub fail_all : List Try → RedisState → RedisState
  fail_all [] r = r
  fail_all (try ∷ tries) r = fail_all tries (fail_once try r)

  abbrev pub Starts : Try → RedisState → Type 0
  Starts try r = (begin_popped from_iso handlers task_id try.started r).1 ≡ starts

  -- In each of the tries the handler starts.
  abbrev pub AllStart : List Try → RedisState → Type 0
  AllStart [] r = Unit
  AllStart (try ∷ tries) r = Starts try r × AllStart tries (fail_once try r)

  -- After each of the tries the task waits again.
  abbrev pub AllWait : List Try → RedisState → Type 0
  AllWait [] r = Unit
  AllWait (try ∷ tries) r =
      Waits to_iso task_id (task_of task_id r).kind try.ended r (fail_once try r)
      × AllWait tries (fail_once try r)

  after_start_started :
      (try : Try) (task : RedisTask) (s : RedisState × Popped)
      → s.1 ≡ starts
      → after_start try task s
        ≡ fail_task to_iso max_retries task_id task.kind task.user_id try.error try.ended s.0
  unfolding after_start
  after_start_started try task (r, starts) e = refl
  after_start_started try task (r, gone) e = absurd (cc)
  after_start_started try task (r, unreadable_time) e = absurd (cc)
  after_start_started try task (r, waits_again) e = absurd (cc)
  after_start_started try task (r, without_handler) e = absurd (cc)

  fail_once_started :
      (try : Try) (r : RedisState)
      → Starts try r
      → fail_once try r
        ≡ fail_task to_iso max_retries task_id
            (task_of task_id r).kind
            (task_of task_id r).user_id
            try.error
            try.ended
            (begin_popped from_iso handlers task_id try.started r).0
  unfolding fail_once
  fail_once_started try r e =
      after_start_started try (task_of task_id r)
        (begin_popped from_iso handlers task_id try.started r) e

  -- What a try that is not the last leaves.
  abbrev LeftWaiting : Try → RedisState → RedisState → Type 0
  LeftWaiting try r s =
      (s.dlq ≡ r.dlq)
      × ((task_of task_id s).retry_count ≡ suc (task_of task_id r).retry_count)
      × Waits to_iso task_id (task_of task_id r).kind try.ended r s

  fail_once-less :
      (try : Try) (r : RedisState)
      → Starts try r
      → suc (task_of task_id r).retry_count < max_retries
      → LeftWaiting try r (fail_once try r)
  unfolding fail_task
  fail_once-less try r start h =
      let kind = (task_of task_id r).kind in
      let user_id = (task_of task_id r).user_id in
      let began = (begin_popped from_iso handlers task_id try.started r).0 in
      let kept = begin_popped-Keeps from_iso handlers task_id try.started r in
      let queues = begin_popped-StartKeeps from_iso handlers task_id try.started r start in
      let less =
        handle_task_failure-less to_iso max_retries task_id kind try.error try.ended began
          (omega (arith, h, kept.0)) in
      let waits = less.2 in
      let failed_state =
        handle_task_failure to_iso max_retries task_id kind try.error try.ended began in
      let same = task_of-release task_id kind user_id failed_state in
      let parts = release-tasks kind user_id failed_state in
      subst (LeftWaiting try r) (sym (fail_once_started try r start)) (
        parts.1 ∙ less.0 ∙ kept.1,
        ap (λ (t : RedisTask). t.retry_count) same ∙ less.1 ∙ ap suc kept.0,
        (
          parts.2 ∙ waits.0 ∙ ap (push_right (codes "queue:" ++ kind) task_id) queues,
          ap (λ (t : RedisTask). t.status) same ∙ waits.1,
          ap (λ (t : RedisTask). t.run_after) same
              ∙ waits.2
              ∙ ap (λ n. some (to_iso (try.ended + seconds (retry_delay (suc n))))) kept.0,
        ),
      )

  fail_all-less :
      (tries : List Try) (r : RedisState)
      → AllStart tries r
      → (task_of task_id r).retry_count + length tries < max_retries
      → ((fail_all tries r).dlq ≡ r.dlq)
        × ((task_of task_id (fail_all tries r)).retry_count
            ≡ (task_of task_id r).retry_count + length tries)
        × AllWait tries r
  unfolding fail_all
  fail_all-less [] r start h = (refl, omega arith, tt)
  fail_all-less (try ∷ tries) r start h =
      let here = fail_once-less try r start.0 (omega (arith, h)) in
      let rest = fail_all-less tries (fail_once try r) start.1 (omega (arith, h, here.1)) in
      (rest.0 ∙ here.0, omega (arith, rest.1, here.1), (here.2, rest.2))

  -- What the last try leaves.
  abbrev pub GivenUp : Try → RedisState → RedisState → Type 0
  GivenUp try r s =
      (s.dlq
        ≡ record {
          task_id = task_id;
          kind = (task_of task_id r).kind;
          error = try.error;
          failed_at = try.ended;
          retry_count = max_retries;
        }
          ∷ r.dlq)
      × ((task_of task_id s).status ≡ failed)
      × (s.queues ≡ r.queues)

  fail_once-last :
      (try : Try) (r : RedisState)
      → Starts try r
      → suc (task_of task_id r).retry_count ≡ max_retries
      → GivenUp try r (fail_once try r)
  unfolding fail_task
  fail_once-last try r start h =
      let kind = (task_of task_id r).kind in
      let user_id = (task_of task_id r).user_id in
      let began = (begin_popped from_iso handlers task_id try.started r).0 in
      let kept = begin_popped-Keeps from_iso handlers task_id try.started r in
      let queues = begin_popped-StartKeeps from_iso handlers task_id try.started r start in
      let last =
        handle_task_failure-last to_iso max_retries task_id kind try.error try.ended began
          (omega (arith, h, kept.0)) in
      let failed_state =
        handle_task_failure to_iso max_retries task_id kind try.error try.ended began in
      let parts = release-tasks kind user_id failed_state in
      subst (GivenUp try r) (sym (fail_once_started try r start)) (
        parts.1 ∙ last.0 ∙ rw kept.1 refl,
        ap (λ (t : RedisTask). t.status) (task_of-release task_id kind user_id failed_state)
            ∙ last.1,
        parts.2 ∙ last.2 ∙ queues,
      )

pub fail_all-dlq :
    (from_iso : String → Option ℕ) (to_iso : ℕ → String) (handlers : List Text)
    (max_retries task_id : ℕ) (tries : List Try) (last : Try) (r : RedisState)
    → (task_of task_id r).retry_count + suc (length tries) ≡ max_retries
    → AllStart from_iso to_iso handlers max_retries task_id tries r
    → Starts from_iso to_iso handlers max_retries task_id last
        (fail_all from_iso to_iso handlers max_retries task_id tries r)
    → (let before = fail_all from_iso to_iso handlers max_retries task_id tries r in
        (before.dlq ≡ r.dlq)
        × AllWait from_iso to_iso handlers max_retries task_id tries r
        × GivenUp from_iso to_iso handlers max_retries task_id last before
            (fail_once from_iso to_iso handlers max_retries task_id last before))
fail_all-dlq from_iso to_iso handlers max_retries task_id tries last r h start end =
    let less =
      fail_all-less from_iso to_iso handlers max_retries task_id tries r start (omega (arith, h)) in
    let before = fail_all from_iso to_iso handlers max_retries task_id tries r in
    (
      less.0,
      less.2,
      fail_once-last from_iso to_iso handlers max_retries task_id last before end
          (omega (arith, h, less.1)),
    )
