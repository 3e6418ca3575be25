-- ===== src/Sync/Progress/Limits.antt =====
-- A progress keeps at most 50 log entries and 8 previews, the queue at most 1000 items.
use gexpense_tracker_public.Prelude.{
  ℕ, ◌≡◌, ◌-◌, ◌≤◌, arith, Bool, Option, some, List, [], ◌∷◌, ◌++◌, ltb, length, if-elim,
  leb-of_ltb-false, Option-elim, nat_eq, length-append, length-take, length-drop,
}
use gexpense_tracker_public.Prelude.Dict.{
  get, get_or, get_or_elim, AllValues, AllValues-put, AllValues-get,
}
use gexpense_tracker_public.Prelude.Text.{Text, text_equality}
use gexpense_tracker_public.Sync.Progress.{
  LogEntry, Preview, Progress, Row, Store, default_progress, key_of, row_to_dict, put_new,
  user_progress, load_from_db, put_nowait, last_fifty, add_log, show_preview, fetching_progress,
  minimize, change, log_event, add_preview, set_minimized, reset_progress, clear_sync_progress,
  with_object,
}

abbrev pub IsShort : Progress → Type 0
IsShort p = (length p.log ≤ 50) × (length p.previews ≤ 8)

abbrev pub HasShortLog : Row → Type 0
HasShortLog row = length row.log ≤ 50

-- Every progress, every row and the queue are within their limits.
unfoldable pub IsLimited : Store → Type 0
IsLimited s = AllValues IsShort s.objects × AllValues HasShortLog s.table × (length s.queue ≤ 1000)

pub length-last_fifty : (log : List LogEntry) → length (last_fifty log) ≤ 50
unfolding last_fifty
length-last_fifty log = omega (arith, length-drop (length log - 50) log)

add_log-IsShort : (entry : LogEntry) (p : Progress) → IsShort p → IsShort (add_log entry p)
unfolding add_log
add_log-IsShort entry p (log, previews) = (
  if-elim (λ l. length l ≤ 50) (ltb 50 (length (p.log ++ entry ∷ [])))
      (last_fifty (p.log ++ entry ∷ [])) (p.log ++ entry ∷ [])
      (λ e. length-last_fifty (p.log ++ entry ∷ []))
      (λ e. leb-of_ltb-false 50 (length (p.log ++ entry ∷ [])) e),
  previews,
)

show_preview-IsShort : (entry : Preview) (p : Progress) → IsShort p → IsShort (show_preview entry p)
unfolding show_preview
show_preview-IsShort entry p (log, previews) = (log, omega (arith, length-take 7 p.previews))

minimize-IsShort : (flag : Bool) (p : Progress) → IsShort p → IsShort (minimize flag p)
unfolding minimize
minimize-IsShort flag p short = short

put_nowait-IsLimited :
    (item : Text × Option ℕ) (s : Store) → IsLimited s → IsLimited (put_nowait item s)
unfolding put_nowait IsLimited
put_nowait-IsLimited item s (objects, table, queue) =
    if-elim IsLimited (ltb (length s.queue) 1000) _ _
      (λ e. (objects, table, ground (arith, length-append s.queue (item ∷ []))))
      (λ e. (objects, table, queue))

pub put_new-IsLimited :
    (key : Text) (p : Progress) (s : Store) → IsShort p → IsLimited s → IsLimited (put_new key p s)
unfolding put_new IsLimited
put_new-IsLimited key p s short (objects, table, queue) =
    (AllValues-put IsShort s.next p s.objects short objects, table, queue)

with_object-IsLimited :
    (r : ℕ) (p : Progress) (s : Store) → IsShort p → IsLimited s → IsLimited (with_object r p s)
unfolding IsLimited
with_object-IsLimited r p s short (objects, table, queue) =
    (AllValues-put IsShort r p s.objects short objects, table, queue)

default_progress-IsShort : IsShort default_progress
default_progress-IsShort = (ground arith, ground arith)

user_progress-IsLimited :
    (user_id : Text) (s : Store) → IsLimited s → IsLimited (user_progress user_id s).1
unfolding user_progress
user_progress-IsLimited user_id s h =
    Option-elim {B = ℕ × Store} (λ u. IsLimited u.1) (get (key_of user_id) s.sync_progress) _ _
      (λ e. put_new-IsLimited (key_of user_id) default_progress s default_progress-IsShort h)
      (λ r e. h)

object-IsShort : (r : ℕ) (s : Store) → IsLimited s → IsShort (get_or r s.objects default_progress)
unfolding IsLimited
object-IsShort r s h =
    get_or_elim IsShort r s.objects default_progress default_progress-IsShort
      (λ p e. AllValues-get IsShort r s.objects p h.0 e)

change-IsLimited :
    (user_id : Text) (f : Progress → Progress) (s : Store)
    → ((p : Progress) → IsShort p → IsShort (f p))
    → IsLimited s
    → IsLimited (change user_id f s)
unfolding change
change-IsLimited user_id f s keeps h =
    let u = user_progress-IsLimited user_id s h in
    put_nowait-IsLimited _ _ (
      with_object-IsLimited _ _ _
        (keeps _ (object-IsShort (user_progress user_id s).0 (user_progress user_id s).1 u)) u)

row_to_dict-IsShort :
    (row : Row) (s : Store) (user_id : Text)
    → IsLimited s
    → get user_id s.table ≡ some row
    → IsShort (row_to_dict row)
unfolding row_to_dict IsLimited
row_to_dict-IsShort row s user_id h e =
    (AllValues-get HasShortLog user_id s.table row h.1 e, ground arith)

pub load_from_db-IsLimited :
    (user_id : Text) (s : Store) → IsLimited s → IsLimited (load_from_db user_id s)
unfolding load_from_db
load_from_db-IsLimited user_id s h =
    Option-elim IsLimited (get user_id s.table) _ _ (λ e. h)
      (λ row e.
        Option-elim IsLimited (get (key_of user_id) s.sync_progress) _ _
          (λ f.
            put_new-IsLimited (key_of user_id) (row_to_dict row) s
              (row_to_dict-IsShort row s user_id h e) h)
          (λ r f. h))

pub log_event-IsLimited :
    (user_id : Text) (entry : LogEntry) (s : Store)
    → IsLimited s
    → IsLimited (log_event user_id entry s)
unfolding log_event
log_event-IsLimited user_id entry s h =
    change-IsLimited user_id (add_log entry) s (add_log-IsShort entry) h

pub add_preview-IsLimited :
    (user_id : Text) (entry : Preview) (s : Store)
    → IsLimited s
    → IsLimited (add_preview user_id entry s)
unfolding add_preview
add_preview-IsLimited user_id entry s h =
    change-IsLimited user_id (show_preview entry) s (show_preview-IsShort entry) h

pub set_minimized-IsLimited :
    (user_id : Text) (flag : Bool) (s : Store)
    → IsLimited s
    → IsLimited (set_minimized user_id flag s)
unfolding set_minimized
set_minimized-IsLimited user_id flag s h =
    change-IsLimited user_id (minimize flag) s (minimize-IsShort flag) h

pub reset_progress-IsLimited :
    (user_id : Text) (s : Store) → IsLimited s → IsLimited (reset_progress user_id s)
unfolding reset_progress
reset_progress-IsLimited user_id s h =
    put_nowait-IsLimited _ _
      (put_new-IsLimited (key_of user_id) fetching_progress s (ground arith, ground arith) h)

pub clear_sync_progress-IsLimited :
    (user_id : Text) (s : Store) → IsLimited s → IsLimited (clear_sync_progress user_id s)
unfolding clear_sync_progress IsLimited
clear_sync_progress-IsLimited user_id s h = put_nowait-IsLimited _ _ h
