-- ===== src/Sync/Progress/Recovery.antt =====
-- `recover_stale_progresses` of app/sync/progress.py, whose query and commit succeed, as one step.
use gexpense_tracker_public.Prelude.{
  arith, false, none, some, [], ◌∷◌, if◌then◌else◌, if-elim, nat_eq,
}
use gexpense_tracker_public.Prelude.Dict.{Dict, map_values, AllValues}
use gexpense_tracker_public.Prelude.Text.{Text, codes, text_equality}
use gexpense_tracker_public.Sync.Progress.{Progress, Row, Store, default_progress, put_new}
use gexpense_tracker_public.Sync.Progress.Limits.{
  IsShort, HasShortLog, IsLimited, put_new-IsLimited,
}

abbrev restarted : Text
restarted = codes "server restarted during sync"

-- The row, which was running.
unfoldable pub recover_row : Row → Row
recover_row row =
    if row.running
    then record {
      running = false;
      phase = "error";
      phase_detail = row.phase_detail;
      current = row.current;
      total = row.total;
      result = row.result;
      error = some restarted;
      log = row.log;
    }
    else row

-- The dict that it gets.
unfoldable pub recovered_progress : Row → Progress
recovered_progress row = record {
  running = false;
  phase = "error";
  phase_detail = [];
  current = row.current;
  total = row.total;
  tally = default_progress.tally;
  previews = [];
  current_email = none;
  log = row.log;
  result = row.result;
  error = some restarted;
  minimized = false;
}

-- The assignments to `_sync_progress`.
unfoldable pub recover_all : Dict Text Row → Store → Store
unfolding recovered_progress put_new
recover_all [] s = s
recover_all ((user_id, row) ∷ rows) s =
    recover_all rows (if row.running then put_new user_id (recovered_progress row) s else s)

-- `recover_stale_progresses`
unfoldable pub recover_stale_progresses : Store → Store
unfolding recover_row recover_all
recover_stale_progresses s =
    let t = recover_all s.table s in
    record {
      objects = t.objects;
      next = t.next;
      sync_progress = t.sync_progress;
      queue = t.queue;
      table = map_values recover_row s.table;
    }

recovered_progress-IsShort : (row : Row) → HasShortLog row → IsShort (recovered_progress row)
unfolding recovered_progress
recovered_progress-IsShort row h = (h, ground arith)

recover_all-IsLimited :
    (rows : Dict Text Row) (s : Store)
    → AllValues HasShortLog rows
    → IsLimited s
    → IsLimited (recover_all rows s)
unfolding recover_all
recover_all-IsLimited [] s rows h = h
recover_all-IsLimited ((user_id, row) ∷ rows) s short h =
    recover_all-IsLimited rows
      (if row.running then put_new user_id (recovered_progress row) s else s) short.1
      (if-elim IsLimited row.running (put_new user_id (recovered_progress row) s) s
        (λ e.
          put_new-IsLimited user_id (recovered_progress row) s
            (recovered_progress-IsShort row short.0) h)
        (λ e. h))

recover_row-HasShortLog : (row : Row) → HasShortLog row → HasShortLog (recover_row row)
unfolding recover_row
recover_row-HasShortLog row h = if-elim HasShortLog row.running _ row (λ e. h) (λ e. h)

map_values-HasShortLog :
    (table : Dict Text Row)
    → AllValues HasShortLog table
    → AllValues HasShortLog (map_values recover_row table)
map_values-HasShortLog [] h = tt
map_values-HasShortLog ((user_id, row) ∷ table) h =
    (recover_row-HasShortLog row h.0, map_values-HasShortLog table h.1)

pub recover_stale_progresses-IsLimited :
    (s : Store) → IsLimited s → IsLimited (recover_stale_progresses s)
unfolding recover_stale_progresses IsLimited
recover_stale_progresses-IsLimited s h =
    let t = recover_all-IsLimited s.table s h.1 h in (t.0, map_values-HasShortLog s.table h.1, t.2)
