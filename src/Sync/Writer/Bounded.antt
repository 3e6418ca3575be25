-- ===== src/Sync/Writer/Bounded.antt =====
-- The limits of the progresses hold in every interleaving with the writer.
use gexpense_tracker_public.Prelude.{
  ℕ, ◌≡◌, arith, Option, List, [], ◌∷◌, if-elim, List-elim, nat_eq,
}
use gexpense_tracker_public.Prelude.Dict.{
  Dict, get_or, remove_all, AllValues, AllValues-put, AllValues-remove,
}
use gexpense_tracker_public.Prelude.Text.{Text, text_equality}
use gexpense_tracker_public.Sync.Progress.{Progress, Row, Store, default_progress}
use gexpense_tracker_public.Sync.Progress.Limits.{
  HasShortLog, IsLimited, length-last_fifty, log_event-IsLimited, add_preview-IsLimited,
  set_minimized-IsLimited, reset_progress-IsLimited, clear_sync_progress-IsLimited,
  load_from_db-IsLimited,
}
use gexpense_tracker_public.Sync.Progress.Recovery.{recover_stale_progresses-IsLimited}
use gexpense_tracker_public.Sync.Writer.{
  Writer, to_row, write_all, flush, take_item, has_batch, time_out, cancel, Event, logged,
  previewed, minimized, reset, cleared, loaded, item_taken, timed_out, cancelled, recovered,
  started, step, run,
}

to_row-HasShortLog : (p : Progress) → HasShortLog (to_row p)
unfolding to_row
to_row-HasShortLog p = length-last_fifty p.log

write_all-HasShortLog :
    (objects : Dict ℕ Progress) (writes : Dict Text ℕ) (table : Dict Text Row)
    → AllValues HasShortLog table
    → AllValues HasShortLog (write_all objects writes table)
unfolding write_all
write_all-HasShortLog objects [] table h = h
write_all-HasShortLog objects ((uid, r) ∷ writes) table h = write_all-HasShortLog objects writes _ (
    AllValues-put HasShortLog uid _ table (to_row-HasShortLog (get_or r objects default_progress))
      h)

remove_all-HasShortLog :
    (users : List Text) (table : Dict Text Row)
    → AllValues HasShortLog table
    → AllValues HasShortLog (remove_all users table)
unfolding remove_all
remove_all-HasShortLog [] table h = h
remove_all-HasShortLog (u ∷ users) table h =
    remove_all-HasShortLog users _ (AllValues-remove HasShortLog u table h)

flush-IsLimited : (w : Writer) (s : Store) → IsLimited s → IsLimited (flush w s)
unfolding flush IsLimited
flush-IsLimited w s (objects, table, queue) = (
  objects,
  remove_all-HasShortLog w.delete_pending _
      (write_all-HasShortLog s.objects w.pending s.table table),
  queue,
)

-- The store of the state is within its limits.
abbrev pub HasLimits : Writer × Store → Type 0
HasLimits c = IsLimited c.1

-- A store whose queue has lost its first item.
abbrev with_queue : List (Text × Option ℕ) → Store → Store
with_queue queue s = record {
  objects = s.objects;
  next = s.next;
  sync_progress = s.sync_progress;
  queue = queue;
  table = s.table;
}

with_queue-IsLimited :
    (item : Text × Option ℕ) (queue : List (Text × Option ℕ)) (s : Store)
    → s.queue ≡ item ∷ queue
    → IsLimited s
    → IsLimited (with_queue queue s)
unfolding IsLimited
with_queue-IsLimited item queue s e (objects, table, short) = (objects, table, ground arith)

take_item-HasLimits : (w : Writer) (s : Store) → IsLimited s → HasLimits (take_item w s)
unfolding take_item
take_item-HasLimits w s h =
    List-elim HasLimits s.queue _ _ (λ e. h) (λ item queue e. with_queue-IsLimited item queue s e h)

time_out-HasLimits : (w : Writer) (s : Store) → IsLimited s → HasLimits (time_out w s)
unfolding time_out
time_out-HasLimits w s h =
    if-elim HasLimits (has_batch w) _ _ (λ e. flush-IsLimited w s h)
      (λ e. if-elim HasLimits w.bound _ _ (λ f. h) (λ f. h))

step-HasLimits : (e : Event) (w : Writer) (s : Store) → IsLimited s → HasLimits (step e (w, s))
unfolding step cancel
step-HasLimits (logged u entry) w s h = log_event-IsLimited u entry s h
step-HasLimits (previewed u entry) w s h = add_preview-IsLimited u entry s h
step-HasLimits (minimized u flag) w s h = set_minimized-IsLimited u flag s h
step-HasLimits (reset u) w s h = reset_progress-IsLimited u s h
step-HasLimits (cleared u) w s h = clear_sync_progress-IsLimited u s h
step-HasLimits (loaded u) w s h = load_from_db-IsLimited u s h
step-HasLimits item_taken w s h =
    if-elim HasLimits w.running _ _ (λ e. take_item-HasLimits w s h) (λ e. h)
step-HasLimits timed_out w s h =
    if-elim HasLimits w.running _ _ (λ e. time_out-HasLimits w s h) (λ e. h)
step-HasLimits cancelled w s h =
    if-elim HasLimits w.running _ _ (λ e. flush-IsLimited w s h) (λ e. h)
step-HasLimits recovered w s h = recover_stale_progresses-IsLimited s h
step-HasLimits started w s h = h

-- Where every progress has at most 50 log entries and 8 previews, every row at most 50 log entries
-- and the queue at most 1000 items, the same holds after any events, in any order.
pub run-IsLimited :
    (events : List Event) (w : Writer) (s : Store) → IsLimited s → IsLimited (run events (w, s)).1
unfolding run
run-IsLimited [] w s h = h
run-IsLimited (e ∷ events) w s h =
    run-IsLimited events (step e (w, s)).0 (step e (w, s)).1 (step-HasLimits e w s h)
