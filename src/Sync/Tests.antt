-- ===== src/Sync/Tests.antt =====
-- Runs of the progress and of its writer.
use gexpense_tracker_public.Prelude.{
  ℕ, ◌+◌, ◌≤◌, Option, true, false, ◌≡◌, refl, arith, none, some, List, [], ◌∷◌, length,
  if◌then◌else◌, nat_eq,
}
use gexpense_tracker_public.Prelude.Dict.{keys, get}
use gexpense_tracker_public.Prelude.Members.{mem, IsNodup}
use gexpense_tracker_public.Prelude.Text.{Text, codes, text_equality, text_eq}
use gexpense_tracker_public.Limits.Scans.{new_limiter, is_recent}
use gexpense_tracker_public.Sync.Scans.{
  SyncState, has_new, needs_scan, eligible_scan_users, scan_all,
}
use gexpense_tracker_public.Sync.Scans.Counted.{scan_all-counted}
use gexpense_tracker_public.Sync.Scans.Limited.{tried, scan_all-limited}
use gexpense_tracker_public.Sync.Progress.{LogEntry, Row, Store}
use gexpense_tracker_public.Sync.Progress.Previews.{in_angles}
use gexpense_tracker_public.Sync.Progress.Limits.{IsLimited}
use gexpense_tracker_public.Sync.Writer.{
  Writer, new_writer, flush, Event, logged, reset, cleared, item_taken, timed_out, recovered,
  started, run,
}
use gexpense_tracker_public.Sync.Writer.Batches.{written, get-flush, first_time_out_stops_writer}
use gexpense_tracker_public.Sync.Writer.Bounded.{run-IsLimited}

abbrev user : Text
user = codes "u1"

abbrev empty_store : Store
empty_store = record { objects = []; next = 0; sync_progress = []; queue = []; table = [] }

abbrev hello : LogEntry
hello = record { time = 5; message = codes "hello"; kind = "info" }

sender_in_angles : in_angles (codes "Shop <a@b.in>") ≡ some (codes "a@b.in")
unfolding in_angles
sender_in_angles = refl

empty_store-IsLimited : IsLimited empty_store
unfolding IsLimited
empty_store-IsLimited = (tt, tt, ground arith)

abbrev events : List Event
events = reset user ∷ logged user hello ∷ item_taken ∷ item_taken ∷ timed_out ∷ []

one_row : length (run events (new_writer, empty_store)).1.table ≡ 1
unfolding run text_eq get
one_row = refl

run-IsLimited_example : IsLimited (run events (new_writer, empty_store)).1
run-IsLimited_example = run-IsLimited events new_writer empty_store empty_store-IsLimited

first_time_out_stops_writer_example :
    ((run (timed_out ∷ events) (new_writer, empty_store)).0.running ≡ false)
    × ((run (timed_out ∷ events) (new_writer, empty_store)).1.table ≡ [])
first_time_out_stops_writer_example =
    first_time_out_stops_writer events empty_store (refl, (refl, (refl, (refl, (refl, tt)))))

-- A writer that has stopped begins anew, and a row that was running is recovered.
writer_begins_anew : (run (timed_out ∷ started ∷ events) (new_writer, empty_store)).0.running ≡ true
unfolding run text_eq get
writer_begins_anew = refl

row_is_recovered :
    (row : Row) × (get user (run (recovered ∷ []) (run events (new_writer, empty_store))).1.table
      ≡ some row)
    × (row.running ≡ false)
unfolding run text_eq get
row_is_recovered = (_, refl, refl)

-- A user's progress is cleared and a sync begins: the batch ends with no row.
abbrev restart : List Event
restart = reset user ∷ cleared user ∷ reset user ∷ item_taken ∷ item_taken ∷ item_taken ∷ []

abbrev before_batch : Writer × Store
before_batch = run restart (new_writer, empty_store)

restart_is_lost : (run (timed_out ∷ []) before_batch).1.table ≡ []
unfolding run text_eq get
restart_is_lost = refl

one_pending-IsNodup : IsNodup (keys before_batch.0.pending)
unfolding run text_eq get
one_pending-IsNodup = (refl, tt)

get-flush_example : get user (flush before_batch.0 before_batch.1).table ≡ (
    if mem user before_batch.0.delete_pending
    then none
    else written before_batch.1.objects
        (get user before_batch.0.pending)
        (get user before_batch.1.table))
get-flush_example = get-flush before_batch.0 before_batch.1 user one_pending-IsNodup

-- Two users who need a scan, and a limit of one scan a minute.
abbrev scan_states : List SyncState
scan_states =
    record { user_id = some 1; last_dedup_scan_at = some 50 }
    ∷ record { user_id = some 2; last_dedup_scan_at = none }
    ∷ record { user_id = some 3; last_dedup_scan_at = some 90 }
    ∷ []

abbrev latest_tx : ℕ → Option ℕ
latest_tx u = some 80

abbrev found : ℕ → ℕ → Option (ℕ × ℕ)
found k u = some (1, 4)

scan_all-limited_example :
    tried
      (scan_all found
        (λ k. k)
        (λ k. 100)
        false
        latest_tx
        ((2, 5) ∷ [])
        (new_limiter 1 60)
        scan_states).summary
    ≤ 1
unfolding eligible_scan_users needs_scan has_new is_recent
scan_all-limited_example =
    scan_all-limited found (λ k. k) (λ k. 100) false latest_tx ((2, 5) ∷ []) 1 60 scan_states 9
      (omega arith, (omega arith, tt)) (omega arith) (refl, (refl, tt))

scan_all-counted_example :
    (let t =
        scan_all found
          (λ k. k)
          (λ k. 100)
          false
          latest_tx
          ((2, 5) ∷ [])
          (new_limiter 1 60)
          scan_states in
      (t.summary.scanned + t.summary.rate_limited + t.summary.errors ≡ t.summary.eligible)
      × (t.summary.eligible ≡ length (eligible_scan_users latest_tx scan_states)))
scan_all-counted_example =
    scan_all-counted found (λ k. k) (λ k. 100) false latest_tx ((2, 5) ∷ []) (new_limiter 1 60)
      scan_states

-- The user with the most pairs is scanned, the other one is not.
one_scanned :
    (scan_all found
      (λ k. k)
      (λ k. 100)
      false
      latest_tx
      ((2, 5) ∷ [])
      (new_limiter 1 60)
      scan_states).states
    ≡ record { user_id = some 1; last_dedup_scan_at = some 50 }
      ∷ record { user_id = some 2; last_dedup_scan_at = some 100 }
      ∷ record { user_id = some 3; last_dedup_scan_at = some 90 }
      ∷ []
unfolding scan_all get is_recent
one_scanned = refl
