-- ===== src/Sync/Progress.antt =====
-- app/sync/progress.py, in a process whose event loop runs and whose session factory is set. A
-- progress is a dict that the queue and `_sync_progress` share, so both hold a reference to it, and
-- the dicts stand in `objects`. An empty text stands for a user id that is missing; instants are
-- numbers; a JSON text is kept as the text. The table `sync_progress` is a dict by user.
pub mod Previews
pub mod Table
pub mod Limits
pub mod Recovery
use gexpense_tracker_public.Prelude.{
  ℕ, suc, ◌+◌, ◌-◌, Bool, true, false, Option, none, some, List, [], ◌∷◌, ◌++◌, ◌==◌, ltb, length,
  take, drop, if◌then◌else◌, String, string_eq, nat_eq,
}
use gexpense_tracker_public.Prelude.Int.{ℤ}
use gexpense_tracker_public.Prelude.Dict.{Dict, get, get_or, put, remove}
use gexpense_tracker_public.Prelude.Text.{Text, codes, text_equality, strip, is_empty}

pub record LogEntry : Type 0 where
  pub time : ℕ
  pub message : Text
  pub kind : String

pub record Preview : Type 0 where
  pub subject : Text
  pub sender : Text
  pub label : String
  pub category : Option Text
  pub amount : Option ℤ

pub record Progress : Type 0 where
  pub running : Bool
  pub phase : String
  pub phase_detail : Text
  pub current : ℕ
  pub total : ℕ
  pub tally : Dict String ℕ
  pub previews : List Preview
  pub current_email : Option Preview
  pub log : List LogEntry
  pub result : Option Text
  pub error : Option Text
  pub minimized : Bool

-- A row of the table.
pub record Row : Type 0 where
  pub running : Bool
  pub phase : String
  pub phase_detail : Text
  pub current : ℕ
  pub total : ℕ
  pub result : Option Text
  pub error : Option Text
  pub log : List LogEntry

-- The module's globals and the table. An item of the queue with no reference is a deletion.
pub record Store : Type 0 where
  pub objects : Dict ℕ Progress
  pub next : ℕ
  pub sync_progress : Dict Text ℕ
  pub queue : List (Text × Option ℕ)
  pub table : Dict Text Row

abbrev empty_tally : Dict String ℕ
empty_tally = ("expense", 0) ∷ ("income", 0) ∷ ("ignore", 0) ∷ ("review", 0) ∷ []

-- `_default_progress`
abbrev pub default_progress : Progress
default_progress = record {
  running = false;
  phase = "idle";
  phase_detail = [];
  current = 0;
  total = 0;
  tally = empty_tally;
  previews = [];
  current_email = none;
  log = [];
  result = none;
  error = none;
  minimized = false;
}

-- `_row_to_dict`
unfoldable pub row_to_dict : Row → Progress
row_to_dict row = record {
  running = row.running;
  phase = row.phase;
  phase_detail = row.phase_detail;
  current = row.current;
  total = row.total;
  tally = empty_tally;
  previews = [];
  current_email = none;
  log = row.log;
  result = row.result;
  error = row.error;
  minimized = false;
}

-- `user_id or "default"`
unfoldable pub key_of : Text → Text
unfolding is_empty
key_of user_id = if is_empty user_id then codes "default" else user_id

abbrev pub with_object : ℕ → Progress → Store → Store
with_object r p s = record {
  objects = put r p s.objects;
  next = s.next;
  sync_progress = s.sync_progress;
  queue = s.queue;
  table = s.table;
}

-- `_sync_progress[key] = {...}`, a dict that is new
unfoldable pub put_new : Text → Progress → Store → Store
put_new key p s = record {
  objects = put s.next p s.objects;
  next = suc s.next;
  sync_progress = put key s.next s.sync_progress;
  queue = s.queue;
  table = s.table;
}

-- `_user_progress`: its dict, made where the user has none
unfoldable pub user_progress : Text → Store → ℕ × Store
unfolding key_of put_new
user_progress user_id s = elim (get (key_of user_id) s.sync_progress) [
  | none ↦ (s.next, put_new (key_of user_id) default_progress s)
  | some r ↦ (r, s)
]

-- What the load that `_user_progress` schedules does later, `_load_from_db_async`.
unfoldable pub load_from_db : Text → Store → Store
unfolding key_of put_new row_to_dict
load_from_db user_id s = elim (get user_id s.table) [
  | none ↦ s
  | some row ↦ elim (get (key_of user_id) s.sync_progress) [
    | none ↦ put_new (key_of user_id) (row_to_dict row) s
    | some r ↦ s
  ]
]

-- `_progress_write_queue.put_nowait(item)`, and the branch for `QueueFull`
unfoldable pub put_nowait : Text × Option ℕ → Store → Store
put_nowait item s =
    if ltb (length s.queue) 1000
    then record {
      objects = s.objects;
      next = s.next;
      sync_progress = s.sync_progress;
      queue = s.queue ++ item ∷ [];
      table = s.table;
    }
    else s

-- `log[-50:]`
unfoldable pub last_fifty : List LogEntry → List LogEntry
last_fifty log = drop (length log - 50) log

unfoldable pub add_log : LogEntry → Progress → Progress
unfolding last_fifty
add_log entry p = record {
  running = p.running;
  phase = p.phase;
  phase_detail = p.phase_detail;
  current = p.current;
  total = p.total;
  tally = p.tally;
  previews = p.previews;
  current_email = p.current_email;
  log =
      if ltb 50 (length (p.log ++ entry ∷ []))
      then last_fifty (p.log ++ entry ∷ [])
      else p.log ++ entry ∷ [];
  result = p.result;
  error = p.error;
  minimized = p.minimized;
}

-- An assignment to the user's dict, and `_persist_progress`.
unfoldable pub change : Text → (Progress → Progress) → Store → Store
unfolding user_progress put_nowait get_or
change user_id f s =
    let (r, t) = user_progress user_id s in
    put_nowait (user_id, some r) (with_object r (f (get_or r t.objects default_progress)) t)

-- `_log_event`
unfoldable pub log_event : Text → LogEntry → Store → Store
unfolding change add_log
log_event user_id entry s = change user_id (add_log entry) s

-- `{**_default_progress(), "running": True, "phase": "fetching"}`
abbrev pub fetching_progress : Progress
fetching_progress = record {
  running = true;
  phase = "fetching";
  phase_detail = [];
  current = 0;
  total = 0;
  tally = empty_tally;
  previews = [];
  current_email = none;
  log = [];
  result = none;
  error = none;
  minimized = false;
}

-- `_reset_progress`
unfoldable pub reset_progress : Text → Store → Store
unfolding put_new put_nowait key_of
reset_progress user_id s =
    put_nowait (user_id, some s.next) (put_new (key_of user_id) fetching_progress s)

unfoldable pub show_preview : Preview → Progress → Progress
unfolding put get_or
show_preview entry p = record {
  running = p.running;
  phase = p.phase;
  phase_detail = p.phase_detail;
  current = p.current;
  total = p.total;
  tally = put entry.label (suc (get_or entry.label p.tally 0)) p.tally;
  previews = entry ∷ take 7 p.previews;
  current_email = some entry;
  log = p.log;
  result = p.result;
  error = p.error;
  minimized = p.minimized;
}

-- `_add_preview`
unfoldable pub add_preview : Text → Preview → Store → Store
unfolding change show_preview
add_preview user_id entry s = change user_id (show_preview entry) s

unfoldable pub minimize : Bool → Progress → Progress
minimize minimized p = record {
  running = p.running;
  phase = p.phase;
  phase_detail = p.phase_detail;
  current = p.current;
  total = p.total;
  tally = p.tally;
  previews = p.previews;
  current_email = p.current_email;
  log = p.log;
  result = p.result;
  error = p.error;
  minimized = minimized;
}

-- `set_sync_minimized`
unfoldable pub set_minimized : Text → Bool → Store → Store
unfolding change minimize
set_minimized user_id minimized s = change user_id (minimize minimized) s

-- `clear_sync_progress`
unfoldable pub clear_sync_progress : Text → Store → Store
unfolding key_of put_nowait remove
clear_sync_progress user_id s =
    put_nowait (user_id, none)
      (record {
        objects = s.objects;
        next = s.next;
        sync_progress = remove (key_of user_id) s.sync_progress;
        queue = s.queue;
        table = s.table;
      })
