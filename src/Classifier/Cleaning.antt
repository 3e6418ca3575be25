-- ===== src/Classifier/Cleaning.antt =====
-- `_regex_clean` of app/classifier/merchant.py. `str.lower` and the substitutions of the two regular
-- expressions are the parameters `lower`, `without_cards` and `with_single_blanks`. The loop `while
-- changed` takes fuel, and says when that was not enough.
pub mod Ends
use gexpense_tracker_public.Prelude.{
  ℕ, zero, suc, ◌-◌, Bool, true, false, ◌&&◌, Option, none, some, List, [], ◌∷◌, map, ◌==◌, leb,
  length, take, drop, if◌then◌else◌,
}
use gexpense_tracker_public.Prelude.Text.{Text, codes, text_eq, strip, starts_with}

-- `_STRIP_PREFIXES`
abbrev pub strip_prefixes : List Text
strip_prefixes = map codes ("https " ∷ "http " ∷ "www." ∷ "www " ∷ [])

-- `_STRIP_SUFFIXES`
abbrev pub strip_suffixes : List Text
strip_suffixes = map codes (
    " limited" ∷ " ltd" ∷ " pvt" ∷ " india" ∷ " in" ∷ " bangalore" ∷ " blr" ∷ " mumbai" ∷ " delhi"
    ∷ " chennai" ∷ " hyderabad" ∷ " pune" ∷ [])

unfoldable pub without_prefixes : List Text → Text → Text
unfolding starts_with
without_prefixes [] t = t
without_prefixes (prefix ∷ prefixes) t =
    without_prefixes prefixes (if starts_with prefix t then drop (length prefix) t else t)

-- `text.split("@")[0]`, which is the text where it has no "@"
unfoldable pub before_at : Text → Text
before_at [] = []
before_at (c ∷ t) = let rest = before_at t in if c == b'@' then [] else c ∷ rest

-- `text.endswith(suffix)`
unfoldable pub ends_with : Text → Text → Bool
unfolding text_eq
ends_with suffix t =
    leb (length suffix) (length t) && text_eq suffix (drop (length t - length suffix) t)

-- The loop over the suffixes, with the flag `changed`.
unfoldable pub strip_pass : List Text → Text → Bool → Text × Bool
unfolding ends_with
strip_pass [] t changed = (t, changed)
strip_pass (suffix ∷ suffixes) t changed =
    let cut = strip_pass suffixes (take (length t - length suffix) t) true in
    let kept = strip_pass suffixes t changed in if ends_with suffix t then cut else kept

-- `while changed`
unfoldable pub strip_all : ℕ → List Text → Text → Option Text
unfolding strip_pass
strip_all zero suffixes t = none
strip_all (suc fuel) suffixes t =
    let pass = strip_pass suffixes t false in
    let rest = strip_all fuel suffixes pass.0 in if pass.1 then rest else some pass.0

-- `_regex_clean`, with the length of the text and one more as fuel
unfoldable pub regex_clean : (Text → Text) → (Text → Text) → (Text → Text) → Text → Option Text
unfolding strip without_prefixes before_at strip_all
regex_clean lower without_cards with_single_blanks raw =
    let text = without_cards (before_at (without_prefixes strip_prefixes (strip (lower raw)))) in
    elim (strip_all (suc (length text)) strip_suffixes text) [
      | none ↦ none
      | some t ↦ some (strip (with_single_blanks t))
    ]
