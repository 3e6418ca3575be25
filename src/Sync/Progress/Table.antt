-- ===== src/Sync/Progress/Table.antt =====
-- The calls of the program leave the table of progresses to the writer.
use gexpense_tracker_public.Prelude.{
  ℕ, ◌≡◌, refl, ◌∙◌, Bool, Option, ltb, length, if-elim, Option-elim, nat_eq,
}
use gexpense_tracker_public.Prelude.Dict.{get}
use gexpense_tracker_public.Prelude.Text.{Text, text_equality}
use gexpense_tracker_public.Sync.Progress.{
  LogEntry, Preview, Progress, Store, default_progress, key_of, row_to_dict, put_new, user_progress,
  load_from_db, put_nowait, add_log, show_preview, minimize, fetching_progress, change, log_event,
  add_preview, set_minimized, reset_progress, clear_sync_progress,
}

put_nowait-table : (item : Text × Option ℕ) (s : Store) → (put_nowait item s).table ≡ s.table
unfolding put_nowait
put_nowait-table item s =
    if-elim (λ t. Store.table t ≡ s.table) (ltb (length s.queue) 1000) _ _ (λ e. refl) (λ e. refl)

put_new-table : (key : Text) (p : Progress) (s : Store) → (put_new key p s).table ≡ s.table
unfolding put_new
put_new-table key p s = refl

user_progress-table : (user_id : Text) (s : Store) → (user_progress user_id s).1.table ≡ s.table
unfolding user_progress
user_progress-table user_id s =
    Option-elim {B = ℕ × Store} (λ u. u.1.table ≡ s.table) (get (key_of user_id) s.sync_progress) _
      _ (λ e. put_new-table (key_of user_id) default_progress s) (λ r e. refl)

pub load_from_db-table : (user_id : Text) (s : Store) → (load_from_db user_id s).table ≡ s.table
unfolding load_from_db
load_from_db-table user_id s =
    Option-elim (λ t. Store.table t ≡ s.table) (get user_id s.table) _ _ (λ e. refl)
      (λ row e.
        Option-elim (λ t. Store.table t ≡ s.table) (get (key_of user_id) s.sync_progress) _ _
          (λ f. put_new-table (key_of user_id) (row_to_dict row) s) (λ r f. refl))

change-table :
    (user_id : Text) (f : Progress → Progress) (s : Store) → (change user_id f s).table ≡ s.table
unfolding change
change-table user_id f s = put_nowait-table _ _ ∙ user_progress-table user_id s

pub log_event-table :
    (user_id : Text) (entry : LogEntry) (s : Store) → (log_event user_id entry s).table ≡ s.table
unfolding log_event
log_event-table user_id entry s = change-table user_id (add_log entry) s

pub add_preview-table :
    (user_id : Text) (entry : Preview) (s : Store) → (add_preview user_id entry s).table ≡ s.table
unfolding add_preview
add_preview-table user_id entry s = change-table user_id (show_preview entry) s

pub set_minimized-table :
    (user_id : Text) (flag : Bool) (s : Store) → (set_minimized user_id flag s).table ≡ s.table
unfolding set_minimized
set_minimized-table user_id flag s = change-table user_id (minimize flag) s

pub reset_progress-table : (user_id : Text) (s : Store) → (reset_progress user_id s).table ≡ s.table
unfolding reset_progress
reset_progress-table user_id s =
    put_nowait-table _ _ ∙ put_new-table (key_of user_id) fetching_progress s

pub clear_sync_progress-table :
    (user_id : Text) (s : Store) → (clear_sync_progress user_id s).table ≡ s.table
unfolding clear_sync_progress
clear_sync_progress-table user_id s = put_nowait-table _ _
