-- ===== src/Llm/Sanitize.antt =====
-- `_escape` and `_sanitize` of app/classifier/llm/client.py. `str.lower` is the parameter `lower`.
-- The loop `while True` runs on fuel, and says when the fuel was not enough.
pub mod Places
pub mod Ends
pub mod Endless
use gexpense_tracker_public.Prelude.{
  ℕ, zero, suc, ◌+◌, Bool, true, false, ◌&&◌, ◌||◌, not, Option, none, some, List, [], ◌∷◌, ◌++◌,
  map, ◌==◌, ltb, leb, length, take, drop, filter, if◌then◌else◌,
}
use gexpense_tracker_public.Prelude.Text.{Text, codes, starts_with}

-- `s.replace("{", "{{").replace("}", "}}")`
unfoldable pub escape : Text → Text
escape [] = []
escape (c ∷ t) = let rest = escape t in if c == b'{' || c == b'}' then c ∷ c ∷ rest else c ∷ rest

-- The characters that are kept: line feeds, tabs, and what is no control character.
unfoldable pub is_printable : ℕ → Bool
is_printable c = c == 10 || c == 9 || (leb 32 c && not (c == 127))

-- `injections`
abbrev pub injections : List Text
injections = map codes (
    "ignore all previous instructions" ∷ "forget your instructions" ∷ "system prompt:" ∷ "system:"
    ∷ "you are now" ∷ "new instructions:" ∷ [])

abbrev pub redacted : Text
redacted = codes "[redacted]"

-- one further, where there is an index
unfoldable pub next_index : Option ℕ → Option ℕ
next_index none = none
next_index (some i) = some (suc i)

-- `t.find(s)`, with none for -1
unfoldable pub find : Text → Text → Option ℕ
unfolding starts_with next_index
find s [] = if starts_with s [] then some 0 else none
find s (c ∷ t) = let rest = find s t in if starts_with s (c ∷ t) then some 0 else next_index rest

-- `s[:idx] + "[redacted]" + s[idx + len(pattern):]`
unfoldable pub redact_at : Text → ℕ → Text → Text
redact_at pattern idx s = take idx s ++ (redacted ++ drop (idx + length pattern) s)

-- The loop for one of the patterns.
unfoldable pub redact : (Text → Text) → ℕ → Text → Text → Option Text
unfolding find redact_at
redact lower zero pattern s = elim (find pattern (lower s)) [ none ↦ some s | some idx ↦ none ]
redact lower (suc fuel) pattern s = elim (find pattern (lower s)) [
  | none ↦ some s
  | some idx ↦ redact lower fuel pattern (redact_at pattern idx s)
]

-- The loop over the patterns, each with the length of the text as fuel.
unfoldable pub redact_all : (Text → Text) → List Text → Text → Option Text
unfolding redact
redact_all lower [] s = some s
redact_all lower (pattern ∷ patterns) s = elim (redact lower (length s) pattern s) [
  | none ↦ none
  | some t ↦ redact_all lower patterns t
]

unfoldable pub truncate : ℕ → Text → Text
truncate max_length s = if ltb max_length (length s) then take max_length s ++ codes "..." else s

-- `_sanitize` up to the loop
unfoldable pub printable : Text → Text
unfolding escape is_printable
printable s = filter is_printable (escape s)

-- `_sanitize`
unfoldable pub sanitize : (Text → Text) → ℕ → Text → Option Text
unfolding printable redact_all truncate
sanitize lower max_length s = elim (redact_all lower injections (printable s)) [
  | none ↦ none
  | some t ↦ some (truncate max_length t)
]
