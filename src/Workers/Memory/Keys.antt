-- ===== src/Workers/Memory/Keys.antt =====
-- The request keys of the in-memory queue: their two dicts agree and stay bounded.
use gexpense_tracker_public.Prelude.{
  ℕ, ◌≤◌, ◌-◌, String, ◌≡◌, sym, ◌∙◌, inl, inr, Option, none, some, List, [], ◌∷◌, ◌++◌, arith,
  nat_eq, ltb, leb, if◌then◌else◌, length, take, take-all, length-take, Bool-cases,
}
use gexpense_tracker_public.Prelude.Dict.{
  Dict, keys, get, get_or, contains, remove, remove_all, AllIn, get-put, get-remove, get-remove_all,
  mem-keys, length-remove_all-le, length-remove_all, IsNodup-keys-put, IsNodup-keys-remove_all,
  AllIn-of_mem, length-of_empty,
}
use gexpense_tracker_public.Prelude.Members.{mem, IsNodup, IsNodup-take, mem-of_mem-take}
use gexpense_tracker_public.Prelude.Sort.{sorted-IsNodup, mem-sorted}
use gexpense_tracker_public.Workers.Task.{Task, Payload, payload_hash, new_task}
use gexpense_tracker_public.Workers.Memory.{
  TaskQueue, Readings, idempotency_max_size, drop_keys, sorted_keys, stale_keys, live_task,
  prune_idempotency, cleanup_idempotency, bound_idempotency, register_request, append_user_task,
  put_in_queue, create_task, reuse_or_create, enqueue,
}

-- The two dicts have the same keys, no key has two stamps, and there are not too many.
pub record HasKeys (q : TaskQueue) : Type 0 where
  pub nodup : IsNodup (keys q.idempotency_timestamps)
  pub agree : (k : ℕ) → contains k q.idempotency ≡ contains k q.idempotency_timestamps

pub record IsBounded (q : TaskQueue) : Type 0 where
  pub has_keys : HasKeys q
  pub size : length q.idempotency ≤ idempotency_max_size

contains-remove_all :
    (ks : List ℕ) (k : ℕ) (a b : Dict ℕ ℕ)
    → contains k a ≡ contains k b
    → contains k (remove_all ks a) ≡ contains k (remove_all ks b)
contains-remove_all ks k a b h = ground (arith, get-remove_all ks k a, get-remove_all ks k b)

drop_keys-HasKeys : (ks : List ℕ) (q : TaskQueue) → HasKeys q → HasKeys (drop_keys ks q)
unfolding drop_keys
drop_keys-HasKeys ks q h = record {
  nodup = IsNodup-keys-remove_all ks q.idempotency_timestamps h.nodup;
  agree = λ k. contains-remove_all ks k q.idempotency q.idempotency_timestamps (h.agree k);
}

mem-sorted_keys : (k : ℕ) (d : Dict ℕ ℕ) → mem k (sorted_keys d) ≡ contains k d
unfolding sorted_keys
mem-sorted_keys k d = mem-sorted (λ j. get_or j d 0) k (keys d) ∙ mem-keys k d

sorted_keys-IsNodup : (d : Dict ℕ ℕ) → IsNodup (keys d) → IsNodup (sorted_keys d)
unfolding sorted_keys
sorted_keys-IsNodup d n = sorted-IsNodup (λ j. get_or j d 0) (keys d) n

-- Popping the `n` oldest keys leaves at least `n` entries fewer, or none.
module _ (n : ℕ) (q : TaskQueue) (h : HasKeys q) where
  abbrev oldest : List ℕ
  oldest = take n (sorted_keys q.idempotency_timestamps)

  oldest-AllIn : AllIn oldest q.idempotency
  oldest-AllIn = AllIn-of_mem oldest q.idempotency λ k m.
      h.agree k
      ∙ sym (mem-sorted_keys k q.idempotency_timestamps)
      ∙ mem-of_mem-take n k (sorted_keys q.idempotency_timestamps) m

  length-drop_oldest_enough :
      n ≤ length (sorted_keys q.idempotency_timestamps)
      → length (drop_keys oldest q).idempotency ≤ length q.idempotency - n
  unfolding drop_keys
  length-drop_oldest_enough enough = omega (
    arith,
    length-remove_all oldest q.idempotency
        (IsNodup-take n (sorted_keys q.idempotency_timestamps)
          (sorted_keys-IsNodup q.idempotency_timestamps h.nodup))
        oldest-AllIn,
    length-take n (sorted_keys q.idempotency_timestamps),
  )

  length-drop_oldest_all :
      length (sorted_keys q.idempotency_timestamps) ≤ n
      → length (drop_keys oldest q).idempotency ≡ 0
  unfolding drop_keys
  length-drop_oldest_all few = length-of_empty (remove_all oldest q.idempotency) λ k.
      rw (take-all n (sorted_keys q.idempotency_timestamps) few) (
        ground (
          arith,
          get-remove_all (sorted_keys q.idempotency_timestamps) k q.idempotency,
          mem-sorted_keys k q.idempotency_timestamps,
          h.agree k,
        ))

  length-drop_oldest-le : length (drop_keys oldest q).idempotency ≤ length q.idempotency - n
  length-drop_oldest-le =
      elim (Bool-cases (leb n (length (sorted_keys q.idempotency_timestamps)))) [
        | inl enough ↦ length-drop_oldest_enough (ground arith)
        | inr few ↦ omega (arith, length-drop_oldest_all (ground arith))
      ]

-- The second half of a prune, at the queue that the first half leaves.
trim_keys-IsBounded :
    (q : TaskQueue)
    → HasKeys q
    → IsBounded (
        if leb (length q.idempotency) idempotency_max_size
        then q
        else drop_keys
            (take
              (length q.idempotency - idempotency_max_size)
              (sorted_keys q.idempotency_timestamps))
            q)
trim_keys-IsBounded q h = elim (Bool-cases (leb (length q.idempotency) idempotency_max_size)) [
  | inl small ↦ rw small (record { has_keys = h; size = ground arith })
  | inr big ↦ rw big (record {
    has_keys = drop_keys-HasKeys (oldest (length q.idempotency - idempotency_max_size) q h) q h;
    size = ground (arith, length-drop_oldest-le (length q.idempotency - idempotency_max_size) q h);
  })
]

prune_idempotency-IsBounded :
    (now : ℕ) (q : TaskQueue) → HasKeys q → IsBounded (prune_idempotency now q)
unfolding prune_idempotency
prune_idempotency-IsBounded now q h =
    trim_keys-IsBounded (drop_keys (stale_keys now q.idempotency_timestamps) q)
      (drop_keys-HasKeys (stale_keys now q.idempotency_timestamps) q h)

register_request-HasKeys :
    (k : ℕ) (task : Task) (clock : Readings) (q : TaskQueue)
    → HasKeys q
    → HasKeys (register_request k task clock q)
unfolding register_request
register_request-HasKeys k task clock q h = record {
  nodup = IsNodup-keys-put k clock.stamped q.idempotency_timestamps h.nodup;
  agree = λ j. ground (
    arith,
    h.agree j,
    get-put k j task.id q.idempotency,
    get-put k j clock.stamped q.idempotency_timestamps,
  );
}

bound_idempotency-IsBounded :
    (now : ℕ) (q : TaskQueue) → HasKeys q → IsBounded (bound_idempotency now q)
unfolding bound_idempotency
bound_idempotency-IsBounded now q h =
    elim (Bool-cases (ltb idempotency_max_size (length q.idempotency))) [
      | inl over ↦ rw over (prune_idempotency-IsBounded now q h)
      | inr fits ↦ rw fits (record { has_keys = h; size = ground arith })
    ]

-- Neither the user's list nor the queue of ids touches the keys.
append_user_task-IsBounded :
    (u t : ℕ) (q : TaskQueue) → IsBounded q → IsBounded (put_in_queue t (append_user_task u t q))
unfolding append_user_task put_in_queue
append_user_task-IsBounded u t q b =
    elim (Bool-cases (ltb 100 (length (get_or u q.user_tasks [] ++ t ∷ [])))) [
      | inl long ↦ rw long (record {
        has_keys = record { nodup = b.has_keys.nodup; agree = b.has_keys.agree };
        size = b.size;
      })
      | inr short ↦ rw short (record {
        has_keys = record { nodup = b.has_keys.nodup; agree = b.has_keys.agree };
        size = b.size;
      })
    ]

-- Making a task bounds the keys again, also while its own key has a stamp and no task.
create_task-IsBounded :
    (k : ℕ) (task : Task) (clock : Readings) (q : TaskQueue)
    → HasKeys (register_request k task clock q)
    → IsBounded (create_task k task clock q).0
unfolding create_task
create_task-IsBounded k task clock q h =
    append_user_task-IsBounded task.user_id task.id
      (bound_idempotency clock.pruned (register_request k task clock q))
      (bound_idempotency-IsBounded clock.pruned (register_request k task clock q) h)

-- After `del self._idempotency[key]` the stamp is still there until the key is written again.
renew_key-HasKeys :
    (k : ℕ) (task : Task) (clock : Readings) (q : TaskQueue)
    → HasKeys q
    → HasKeys (register_request k task clock (record q { idempotency = remove k q.idempotency }))
unfolding register_request
renew_key-HasKeys k task clock q h = record {
  nodup = IsNodup-keys-put k clock.stamped q.idempotency_timestamps h.nodup;
  agree = λ j. ground (
    arith,
    h.agree j,
    get-put k j task.id (remove k q.idempotency),
    get-remove k j q.idempotency,
    get-put k j clock.stamped q.idempotency_timestamps,
  );
}

reuse_or_create-IsBounded :
    (found : Option ℕ) (k : ℕ) (task : Task) (clock : Readings) (q : TaskQueue)
    → IsBounded q
    → IsBounded (reuse_or_create found k task clock q).0
unfolding reuse_or_create
reuse_or_create-IsBounded none k task clock q b =
    create_task-IsBounded k task clock q (register_request-HasKeys k task clock q b.has_keys)
reuse_or_create-IsBounded (some t) k task clock q b =
    elim (Bool-cases (live_task (get t q.tasks))) [
      | inl live ↦ rw live b
      | inr dead ↦ rw dead (
          create_task-IsBounded k task clock (record q { idempotency = remove k q.idempotency })
            (renew_key-HasKeys k task clock q b.has_keys))
    ]

-- `enqueue`, on every branch, keeps the two dicts of request keys in agreement and the number of
-- keys at most `_IDEMPOTENCY_MAX_SIZE`.
pub enqueue-IsBounded :
    (digest : String → ℕ → Payload → ℕ) (task_id : ℕ) (clock : Readings) (kind : String)
    (user_id : ℕ) (payload : Payload) (q : TaskQueue)
    → IsBounded q
    → IsBounded (enqueue digest task_id clock kind user_id payload q).0
unfolding enqueue
enqueue-IsBounded digest task_id clock kind user_id payload q b =
    reuse_or_create-IsBounded (get (payload_hash digest kind user_id payload) q.idempotency)
      (payload_hash digest kind user_id payload)
      (new_task task_id kind user_id payload clock.created) clock q b

length-cleanup : (ks : List ℕ) (q : TaskQueue) → IsBounded q → IsBounded (drop_keys ks q)
unfolding drop_keys
length-cleanup ks q b = record {
  has_keys = drop_keys-HasKeys ks q b.has_keys;
  size = omega (arith, b.size, length-remove_all-le ks q.idempotency);
}

-- `cleanup_idempotency` keeps the agreement and the bound too.
pub cleanup_idempotency-IsBounded :
    (now : ℕ) (q : TaskQueue) → IsBounded q → IsBounded (cleanup_idempotency now q).0
unfolding cleanup_idempotency
cleanup_idempotency-IsBounded now q b = length-cleanup (stale_keys now q.idempotency_timestamps) q b
