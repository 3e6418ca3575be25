-- ===== src/Workers/Task.antt =====
-- Tasks, their status and the key of a request (app/workers/queue.py).
-- A uuid is only compared, so it is a number. A payload maps its keys to the JSON text of its
-- values. Instants are clock readings in microseconds.
use gexpense_tracker_public.Prelude.{
  ℕ, ◌*◌, String, ◌≡◌, Bool, true, false, ◌||◌, Option, none, [], ◌∷◌, arith, string_eq,
  if◌then◌else◌,
}
use gexpense_tracker_public.Prelude.Dict.{Dict, put}

abbrev pub seconds : ℕ → ℕ
seconds n = n * 1000000

pub data TaskStatus : Type 0 where
  pending running completed failed cancelled : TaskStatus

-- `result if isinstance(result, dict) else {"output": result}`, over the JSON text of the result
pub data TaskResult : Type 0 where
  mapping : String → TaskResult
  output : String → TaskResult

abbrev pub Payload : Type 0
Payload = Dict String String

pub record Task : Type 0 where
  pub id : ℕ
  pub kind : String
  pub user_id : ℕ
  pub status : TaskStatus
  pub payload : Payload
  pub result : Option TaskResult
  pub created_at : ℕ
  pub started_at : Option ℕ
  pub completed_at : Option ℕ
  pub error : Option String

-- `Task(task_id, task_type, user_id, payload)`
unfoldable pub new_task : ℕ → String → ℕ → Payload → ℕ → Task
new_task task_id kind user_id payload now = record {
  id = task_id;
  kind = kind;
  user_id = user_id;
  status = pending;
  payload = payload;
  result = none;
  created_at = now;
  started_at = none;
  completed_at = none;
  error = none;
}

-- `task.status in (TaskStatus.pending, TaskStatus.running)`
unfoldable pub is_live : TaskStatus → Bool
is_live pending = true
is_live running = true
is_live completed = false
is_live failed = false
is_live cancelled = false

-- The keys that `_payload_hash` leaves out of the request's identity.
unfoldable pub is_excluded : String → Bool
is_excluded k = string_eq.beq k "trigger" || string_eq.beq k "run_at"

unfoldable pub stable_payload : Payload → Payload
unfolding is_excluded
stable_payload [] = []
stable_payload ((k, v) ∷ p) =
    let rest = stable_payload p in if is_excluded k then rest else (k, v) ∷ rest

-- `digest` stands for `json.dumps(…, sort_keys=True)` and the first 16 digits of its SHA-256.
unfoldable pub payload_hash : (String → ℕ → Payload → ℕ) → String → ℕ → Payload → ℕ
payload_hash digest kind user_id payload = digest kind user_id (stable_payload payload)

-- Writing `trigger` or `run_at` leaves the stable payload alone.
pub stable_payload-put :
    (k v : String) (p : Payload)
    → is_excluded k ≡ true
    → stable_payload (put k v p) ≡ stable_payload p
unfolding stable_payload put
stable_payload-put k v [] h = ground arith
stable_payload-put k v ((j, w) ∷ p) h =
    ground (arith, stable_payload-put k v p, string_eq.beq_iff j k)
