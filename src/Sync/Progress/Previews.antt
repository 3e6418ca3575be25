-- ===== src/Sync/Progress/Previews.antt =====
-- The entry that `_add_preview` of app/sync/progress.py makes of a message.
use gexpense_tracker_public.Prelude.{
  Option, none, some, [], ◌∷◌, ◌==◌, take, if◌then◌else◌, String, string_eq, nat_eq,
}
use gexpense_tracker_public.Prelude.Int.{ℤ}
use gexpense_tracker_public.Prelude.Text.{Text, codes, text_equality, strip}
use gexpense_tracker_public.Sync.Progress.{Preview}

-- What stands before the first `>`, where there is one.
unfoldable pub before_angle : Text → Option Text
before_angle [] = none
before_angle (c ∷ t) =
    let rest = before_angle t in
    if c == b'>' then some [] else elim rest [ none ↦ none | some s ↦ some (c ∷ s) ]

-- The group of `re.search(r"<([^>]+)>", sender)`
unfoldable pub in_angles : Text → Option Text
unfolding before_angle
in_angles [] = none
in_angles (c ∷ t) =
    let rest = in_angles t in
    if c == b'<'
    then elim (before_angle t) [ none ↦ rest | some [] ↦ rest | some (d ∷ s) ↦ some (d ∷ s) ]
    else rest

unfoldable pub subject_of : Text → Text
subject_of [] = codes "(no subject)"
subject_of (c ∷ s) = c ∷ s

-- `entry` of `_add_preview`, from the subject and the sender of the message
unfoldable pub new_preview : Text → Text → String → Option Text → Option ℤ → Preview
unfolding strip subject_of in_angles
new_preview subject sender label category amount = record {
  subject = take 72 (subject_of (strip subject));
  sender = take 48 (elim (in_angles sender) [ none ↦ sender | some m ↦ m ]);
  label = label;
  category = category;
  amount = amount;
}
