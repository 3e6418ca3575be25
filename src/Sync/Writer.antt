-- ===== src/Sync/Writer.antt =====
-- The background writer of app/sync/progress.py, `_progress_writer_loop`, and the interleavings of
-- its awaits with the calls of the rest of the program. The writes to the database succeed, and the
-- batch of a second is written in one step.
pub mod Bounded
pub mod Batches
use gexpense_tracker_public.Prelude.{
  ℕ, Bool, true, false, ◌&&◌, ◌||◌, not, Option, none, some, List, [], ◌∷◌, if◌then◌else◌, nat_eq,
}
use gexpense_tracker_public.Prelude.Dict.{Dict, get_or, put, remove, remove_all}
use gexpense_tracker_public.Prelude.Members.{add}
use gexpense_tracker_public.Prelude.Text.{Text, text_equality}
use gexpense_tracker_public.Sync.Progress.{
  LogEntry, Preview, Progress, Row, Store, default_progress, last_fifty, log_event, add_preview,
  set_minimized, reset_progress, clear_sync_progress, load_from_db,
}
use gexpense_tracker_public.Sync.Progress.Recovery.{recover_stale_progresses}

-- The locals of the loop. `bound` says whether `writes` and `deletes` have been assigned.
pub record Writer : Type 0 where
  pub running : Bool
  pub pending : Dict Text ℕ
  pub delete_pending : List Text
  pub bound : Bool

abbrev pub new_writer : Writer
new_writer = record { running = true; pending = []; delete_pending = []; bound = false }

-- The row that `_do_write_progress` stores, whether there is one or not.
unfoldable pub to_row : Progress → Row
unfolding last_fifty
to_row p = record {
  running = p.running;
  phase = p.phase;
  phase_detail = p.phase_detail;
  current = p.current;
  total = p.total;
  result = p.result;
  error = p.error;
  log = last_fifty p.log;
}

abbrev pub with_table : Dict Text Row → Store → Store
with_table table s = record {
  objects = s.objects;
  next = s.next;
  sync_progress = s.sync_progress;
  queue = s.queue;
  table = table;
}

-- `for uid, data in writes`
unfoldable pub write_all : Dict ℕ Progress → Dict Text ℕ → Dict Text Row → Dict Text Row
unfolding to_row put get_or
write_all objects [] table = table
write_all objects ((uid, r) ∷ writes) table =
    write_all objects writes (put uid (to_row (get_or r objects default_progress)) table)

-- The two loops over a batch: the writes, then the deletions.
unfoldable pub flush : Writer → Store → Store
unfolding write_all remove_all
flush w s = with_table (remove_all w.delete_pending (write_all s.objects w.pending s.table)) s

-- The queue gives an item within the second.
unfoldable pub take_item : Writer → Store → Writer × Store
unfolding put add
take_item w s = elim s.queue [
  | [] ↦ (w, s)
  | item ∷ queue ↦ (
    record {
      running = w.running;
      pending = elim item.1 [ none ↦ w.pending | some r ↦ put item.0 r w.pending ];
      delete_pending = elim item.1 [
        | none ↦ add item.0 w.delete_pending
        | some r ↦ w.delete_pending
      ];
      bound = w.bound;
    },
    record {
      objects = s.objects;
      next = s.next;
      sync_progress = s.sync_progress;
      queue = queue;
      table = s.table;
    },
  )
]

-- `pending or delete_pending`
unfoldable pub has_batch : Writer → Bool
has_batch w = not (
    elim w.pending [ [] ↦ true | p ∷ ps ↦ false ]
    && elim w.delete_pending [ [] ↦ true | d ∷ ds ↦ false ])

-- A second without an item. With no batch so far, `if writes or deletes` reads names that are not
-- bound: the exception ends the loop.
unfoldable pub time_out : Writer → Store → Writer × Store
unfolding has_batch flush
time_out w s =
    if has_batch w
    then (record { running = true; pending = []; delete_pending = []; bound = true }, flush w s)
    else (if w.bound
        then (w, s)
        else (record { running = false; pending = []; delete_pending = []; bound = false }, s))

-- `_progress_writer_task.cancel()`: the loop ends with the `finally`.
unfoldable pub cancel : Writer → Store → Writer × Store
unfolding flush
cancel w s =
    (record { running = false; pending = []; delete_pending = []; bound = w.bound }, flush w s)

-- What happens in the process, in its order: the calls of the module, the steps of the loop, and the
-- two calls that the program makes when it starts.
pub data Event : Type 0 where
  logged : Text → LogEntry → Event
  previewed : Text → Preview → Event
  minimized : Text → Bool → Event
  reset : Text → Event
  cleared : Text → Event
  loaded : Text → Event
  item_taken timed_out cancelled : Event
  recovered started : Event

-- `start_progress_writer`: a loop that runs is left alone, and one that has ended begins anew.
unfoldable pub start_progress_writer : Writer → Writer
start_progress_writer w = if w.running then w else new_writer

unfoldable pub step : Event → Writer × Store → Writer × Store
unfolding log_event add_preview set_minimized reset_progress clear_sync_progress load_from_db
    take_item time_out cancel recover_stale_progresses start_progress_writer
step (logged user_id entry) (w, s) = (w, log_event user_id entry s)
step (previewed user_id entry) (w, s) = (w, add_preview user_id entry s)
step (minimized user_id flag) (w, s) = (w, set_minimized user_id flag s)
step (reset user_id) (w, s) = (w, reset_progress user_id s)
step (cleared user_id) (w, s) = (w, clear_sync_progress user_id s)
step (loaded user_id) (w, s) = (w, load_from_db user_id s)
step item_taken (w, s) = if w.running then take_item w s else (w, s)
step timed_out (w, s) = if w.running then time_out w s else (w, s)
step cancelled (w, s) = if w.running then cancel w s else (w, s)
step recovered (w, s) = (w, recover_stale_progresses s)
step started (w, s) = (start_progress_writer w, s)

unfoldable pub run : List Event → Writer × Store → Writer × Store
unfolding step
run [] c = c
run (e ∷ events) c = run events (step e c)
