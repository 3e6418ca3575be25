-- ===== src/Sync/Writer/Batches.antt =====
-- What a batch leaves in the table, and when the writer stops.
use gexpense_tracker_public.Prelude.{
  ℕ, ◌≡◌, refl, ◌∙◌, arith, Bool, true, false, Option, none, some, List, [], ◌∷◌, if◌then◌else◌,
  if-elim, nat_eq, ap, sym,
}
use gexpense_tracker_public.Prelude.Dict.{Dict, keys, get, get_or, get-put, get-remove_all}
use gexpense_tracker_public.Prelude.Members.{mem, IsNodup}
use gexpense_tracker_public.Prelude.Text.{Text, text_equality}
use gexpense_tracker_public.Sync.Progress.{Progress, Row, Store, default_progress}
use gexpense_tracker_public.Sync.Writer.{
  Writer, new_writer, to_row, write_all, flush, has_batch, time_out, Event, logged, previewed,
  minimized, reset, cleared, loaded, item_taken, timed_out, cancelled, recovered, started, step,
  run,
}
use gexpense_tracker_public.Sync.Progress.Table.{
  log_event-table, add_preview-table, set_minimized-table, reset_progress-table,
  clear_sync_progress-table, load_from_db-table,
}

-- The row that a user's pending write stands for, or the row that is there.
unfoldable pub written : Dict ℕ Progress → Option ℕ → Option Row → Option Row
written objects none row = row
written objects (some r) row = some (to_row (get_or r objects default_progress))

written-none : (objects : Dict ℕ Progress) (row : Option Row) → row ≡ written objects none row
unfolding written
written-none objects row = refl

get-of_not_key :
    (uid : Text) (writes : Dict Text ℕ) → mem uid (keys writes) ≡ false → get uid writes ≡ none
unfolding get mem
get-of_not_key uid [] h = refl
get-of_not_key uid ((j, r) ∷ writes) h = ground (arith, get-of_not_key uid writes)

-- One entry of the batch, before the entries that follow it.
written-put :
    (objects : Dict ℕ Progress) (uid j : Text) (r : ℕ) (writes : Dict Text ℕ)
    (table : Dict Text Row) (t : Bool)
    → text_equality.beq j uid ≡ t
    → mem j (keys writes) ≡ false
    → written objects
        (get uid writes)
        (if t then some (to_row (get_or r objects default_progress)) else get uid table)
      ≡ written objects (if t then some r else get uid writes) (get uid table)
unfolding written
written-put objects uid j r writes table true e fresh =
    rw
      (get-of_not_key uid writes
        (ap (λ k. mem k (keys writes)) (sym ((text_equality.beq_iff j uid).0 e)) ∙ fresh))
      refl
written-put objects uid j r writes table false e fresh = refl

get-write_all :
    (objects : Dict ℕ Progress) (uid : Text) (writes : Dict Text ℕ) (table : Dict Text Row)
    → IsNodup (keys writes)
    → get uid (write_all objects writes table) ≡ written objects (get uid writes) (get uid table)
unfolding write_all get
get-write_all objects uid [] table nodup = written-none objects (get uid table)
get-write_all objects uid ((j, r) ∷ writes) table nodup =
    get-write_all objects uid writes _ nodup.1
    ∙ ap (written objects (get uid writes))
        (get-put j uid (to_row (get_or r objects default_progress)) table)
    ∙ written-put objects uid j r writes table (text_equality.beq j uid) refl nodup.0

-- After a batch in which no user has two pending writes, the table has no row of a user whose
-- deletion is pending, whatever writes are pending; of another user it has the row that the pending
-- write's progress gives, and the row it had where no write is pending.
pub get-flush :
    (w : Writer) (s : Store) (uid : Text)
    → IsNodup (keys w.pending)
    → get uid (flush w s).table ≡ (
        if mem uid w.delete_pending
        then none
        else written s.objects (get uid w.pending) (get uid s.table))
unfolding flush
get-flush w s uid nodup =
    get-remove_all w.delete_pending uid (write_all s.objects w.pending s.table)
    ∙ ap (λ row. if mem uid w.delete_pending then none else row)
        (get-write_all s.objects uid w.pending s.table nodup)

-- The writer has stopped, and the table is that of the store.
abbrev IsStill : Store → Writer × Store → Type 0
IsStill s c = (c.0.running ≡ false) × (c.1.table ≡ s.table)

-- Neither `recover_stale_progresses` nor `start_progress_writer`, which the program calls when it
-- starts.
abbrev pub follows_start : Event → Bool
follows_start recovered = false
follows_start started = false
follows_start (logged u entry) = true
follows_start (previewed u entry) = true
follows_start (minimized u flag) = true
follows_start (reset u) = true
follows_start (cleared u) = true
follows_start (loaded u) = true
follows_start item_taken = true
follows_start timed_out = true
follows_start cancelled = true

abbrev pub FollowStart : List Event → Type 0
FollowStart [] = Unit
FollowStart (e ∷ events) = (follows_start e ≡ true) × FollowStart events

-- Once the writer has stopped, such an event leaves it stopped and the table as it is.
step-stopped :
    (e : Event) (w : Writer) (s : Store)
    → follows_start e ≡ true
    → w.running ≡ false
    → ((step e (w, s)).0.running ≡ false) × ((step e (w, s)).1.table ≡ s.table)
unfolding step
step-stopped (logged u entry) w s f h = (h, log_event-table u entry s)
step-stopped (previewed u entry) w s f h = (h, add_preview-table u entry s)
step-stopped (minimized u flag) w s f h = (h, set_minimized-table u flag s)
step-stopped (reset u) w s f h = (h, reset_progress-table u s)
step-stopped (cleared u) w s f h = (h, clear_sync_progress-table u s)
step-stopped (loaded u) w s f h = (h, load_from_db-table u s)
step-stopped item_taken w s f h =
    if-elim (IsStill s) w.running _ _ (λ e. ground arith) (λ e. (h, refl))
step-stopped timed_out w s f h =
    if-elim (IsStill s) w.running _ _ (λ e. ground arith) (λ e. (h, refl))
step-stopped cancelled w s f h =
    if-elim (IsStill s) w.running _ _ (λ e. ground arith) (λ e. (h, refl))
step-stopped recovered w s f h = absurd (cc)
step-stopped started w s f h = absurd (cc)

run-stopped :
    (events : List Event) (w : Writer) (s : Store)
    → FollowStart events
    → w.running ≡ false
    → ((run events (w, s)).0.running ≡ false) × ((run events (w, s)).1.table ≡ s.table)
unfolding run
run-stopped [] w s f h = (h, refl)
run-stopped (e ∷ events) w s f h =
    let here = step-stopped e w s f.0 h in
    let rest = run-stopped events (step e (w, s)).0 (step e (w, s)).1 f.1 here.0 in
    (rest.0, rest.1 ∙ here.1)

-- Where a new writer's first event is a second without an item, the writer has ended and the table
-- of progresses does not change, whatever follows of the calls that log, preview, minimize, reset,
-- clear and load progresses and of the writer's own events, in any order, as long as the program
-- calls neither `recover_stale_progresses` nor `start_progress_writer`.
pub first_time_out_stops_writer :
    (events : List Event) (s : Store)
    → FollowStart events
    → ((run (timed_out ∷ events) (new_writer, s)).0.running ≡ false)
      × ((run (timed_out ∷ events) (new_writer, s)).1.table ≡ s.table)
unfolding run step time_out has_batch
first_time_out_stops_writer events s f = run-stopped events _ s f refl
