-- ===== src/Workers/Redis/Order.antt =====
-- The order of the lists in Redis, and repeated requests.
use gexpense_tracker_public.Prelude.{
  ℕ, String, ◌≡◌, refl, ap, ◌∙◌, true, Option, none, some, List, [], ◌∷◌, if◌then◌else◌, nat_eq,
  Option-elim,
}
use gexpense_tracker_public.Prelude.Text.{Text, text_equality}
use gexpense_tracker_public.Prelude.Dict.{Dict, get, get_or, put, get-put_same, get_or-put_same}
use gexpense_tracker_public.Workers.Task.{Payload, is_live}
use gexpense_tracker_public.Workers.Redis.{
  RedisTask, RedisState, queue_key, push_left, pop, live_redis_task, add_task, redis_task,
  enqueue_redis,
}

pop-push_left :
    (key : Text) (task_id : ℕ) (keys : List Text) (queues : Dict Text (List ℕ))
    → (queues' : Dict Text (List ℕ)) × (pop (key ∷ keys) (push_left key task_id queues)
        ≡ some (task_id, queues'))
unfolding pop push_left
pop-push_left key task_id keys queues = (
  put key (get_or key queues []) (push_left key task_id queues),
  ap
      (λ ids. elim ids [
        | [] ↦ pop keys (push_left key task_id queues)
        | t ∷ rest ↦ some (t, put key rest (push_left key task_id queues))
      ])
      (get_or-put_same key (task_id ∷ get_or key queues []) queues []),
)

-- A task that is made is the next to be popped from its list, whatever waits there already.
pub pop-enqueue_redis :
    (read_json : String → Option String) (digest : Text → ℕ → Payload → ℕ) (task_id now : ℕ)
    (kind : Text) (user_id : ℕ) (payload : Payload) (priority : Text) (keys : List Text)
    (r : RedisState)
    → live_redis_task (digest kind user_id payload) r ≡ none
    → (queues : Dict Text (List ℕ)) × (pop
          (queue_key kind priority ∷ keys)
          (enqueue_redis read_json digest task_id now kind user_id payload priority r).0.queues
        ≡ some (task_id, queues))
unfolding enqueue_redis add_task redis_task
pop-enqueue_redis read_json digest task_id now kind user_id payload priority keys r h =
    let key = queue_key kind priority in
    let popped = pop-push_left key task_id keys r.queues in
    (popped.0, rw (h, enqueue_redis) popped.1)

live_redis_task-add_task :
    (task_id idem_key : ℕ) (task : RedisTask) (r : RedisState)
    → is_live task.status ≡ true
    → live_redis_task idem_key (add_task task_id idem_key task r) ≡ some task_id
unfolding live_redis_task add_task
live_redis_task-add_task task_id idem_key task r h =
    let after = add_task task_id idem_key task r in
    let live : Option RedisTask → Option ℕ =
      λ o. elim o [ none ↦ none | some t ↦ if is_live t.status then some task_id else none ] in
    ap
      (λ o. elim o [
        | none ↦ none
        | some existing ↦ elim (get existing after.tasks) [
          | none ↦ none
          | some t ↦ if is_live t.status then some existing else none
        ]
      ])
      (get-put_same idem_key task_id r.idempotency)
    ∙ ap live (get-put_same task_id task r.tasks)
    ∙ ap (λ b. if b then some task_id else none) h

enqueue_redis-live :
    (read_json : String → Option String) (digest : Text → ℕ → Payload → ℕ) (task_id now : ℕ)
    (kind : Text) (user_id : ℕ) (payload : Payload) (priority : Text) (r : RedisState)
    → (let first = enqueue_redis read_json digest task_id now kind user_id payload priority r in
        live_redis_task (digest kind user_id payload) first.0 ≡ some first.1)
unfolding enqueue_redis redis_task is_live
enqueue_redis-live read_json digest task_id now kind user_id payload priority r =
    let key = digest kind user_id payload in
    Option-elim (λ (first : RedisState × ℕ). live_redis_task key first.0 ≡ some first.1)
      (live_redis_task key r)
      (add_task task_id key (redis_task read_json kind user_id payload priority now) r, task_id)
      (λ existing. (r, existing))
      (λ e.
        live_redis_task-add_task task_id key
          (redis_task read_json kind user_id payload priority now) r refl)
      (λ existing e. e)

enqueue_redis-found :
    (read_json : String → Option String) (digest : Text → ℕ → Payload → ℕ) (task_id now : ℕ)
    (kind : Text) (user_id : ℕ) (payload : Payload) (priority : Text) (r : RedisState)
    (existing : ℕ)
    → live_redis_task (digest kind user_id payload) r ≡ some existing
    → enqueue_redis read_json digest task_id now kind user_id payload priority r ≡ (r, existing)
unfolding enqueue_redis
enqueue_redis-found read_json digest task_id now kind user_id payload priority r existing h =
    rw (h, enqueue_redis) refl

-- A repeated request in Redis: after an `enqueue` that made or found a task, one whose request has the
-- same hash returns the same id and changes nothing, whatever its uuid, clock and priority, as long
-- as Redis drops no entry and nothing happens in between.
pub enqueue_redis_repeat :
    (read_json : String → Option String) (digest : Text → ℕ → Payload → ℕ) (id id' now now' : ℕ)
    (kind : Text) (user_id : ℕ) (payload payload' : Payload) (priority priority' : Text)
    (r : RedisState)
    → digest kind user_id payload' ≡ digest kind user_id payload
    → (let first = enqueue_redis read_json digest id now kind user_id payload priority r in
        enqueue_redis read_json digest id' now' kind user_id payload' priority' first.0 ≡ first)
enqueue_redis_repeat read_json digest id id' now now' kind user_id payload payload' priority
      priority' r h =
    let first = enqueue_redis read_json digest id now kind user_id payload priority r in
    enqueue_redis-found read_json digest id' now' kind user_id payload' priority' first.0 first.1 (
      ap (λ k. live_redis_task k first.0) h
      ∙ enqueue_redis-live read_json digest id now kind user_id payload priority r)
