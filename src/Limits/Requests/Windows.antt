-- ===== src/Limits/Requests/Windows.antt =====
-- What the fixed windows of the in-memory limiter guarantee, and what they do not.
use gexpense_tracker_public.Prelude.{
  ℕ, zero, suc, ◌+◌, ◌-◌, ◌≤◌, ◌<◌, String, ◌≡◌, refl, ap, Bool, true, false, Option, none, some,
  List, [], ◌∷◌, ◌++◌, arith, string_eq, ltb, if◌then◌else◌, inr, replicate, min, length,
}
use gexpense_tracker_public.Prelude.Dict.{get, get-put}
use mathlib.Core.Logic.{◌⊎◌}
use gexpense_tracker_public.Workers.Task.{seconds}
use gexpense_tracker_public.Limits.Requests.{Buckets, get_key, write_bucket, is_allowed, serve}

abbrev pub admitted : List Bool → ℕ
admitted [] = 0
admitted (true ∷ vs) = suc (admitted vs)
admitted (false ∷ vs) = admitted vs

-- All instants are at most `limit`.
abbrev pub AllUpTo : ℕ → List ℕ → Type 0
AllUpTo limit [] = Unit
AllUpTo limit (t ∷ ts) = (t ≤ limit) × AllUpTo limit ts

module _ (identifier endpoint : String) (max_requests window_seconds : ℕ) where
  -- The bucket of the client at the endpoint.
  abbrev pub bucket : Buckets → Option (ℕ × ℕ)
  bucket d = get (get_key identifier endpoint) d

  abbrev calls : List ℕ → Buckets → Buckets × List Bool
  calls = serve identifier endpoint max_requests window_seconds

  abbrev call : ℕ → Buckets → Buckets × Bool
  call = is_allowed identifier endpoint max_requests window_seconds

  -- A call that begins a window: its key has no bucket, or one whose window is over.
  abbrev pub Begins : ℕ → Buckets → Type 0
  Begins now d =
      (bucket d ≡ none)
      ⊎ ((c : ℕ) × (ws : ℕ) × (bucket d ≡ some (c, ws)) × (ws + seconds window_seconds < now))

  get-write_self :
      (b : ℕ × ℕ) (d : Buckets)
      → bucket (write_bucket (get_key identifier endpoint) (some b) d) ≡ some b
  unfolding write_bucket
  get-write_self b d = ground (
    arith,
    get-put (get_key identifier endpoint) (get_key identifier endpoint) b d,
    string_eq.beq_iff (get_key identifier endpoint) (get_key identifier endpoint),
  )

  call_inside :
      (now : ℕ) (d : Buckets) (c ws : ℕ)
      → bucket d ≡ some (c, ws)
      → now ≤ ws + seconds window_seconds
      → ((call now d).1 ≡ ltb c max_requests)
        × (bucket (call now d).0 ≡ some ((if ltb c max_requests then c + 1 else c), ws))
  unfolding is_allowed
  call_inside now d c ws e inside = ground (
    arith,
    get-put (get_key identifier endpoint) (get_key identifier endpoint) (c + 1, ws) d,
    string_eq.beq_iff (get_key identifier endpoint) (get_key identifier endpoint),
  )

  call-Begins :
      (now : ℕ) (d : Buckets)
      → Begins now d
      → ((call now d).1 ≡ true) × (bucket (call now d).0 ≡ some (1, now))
  unfolding is_allowed
  call-Begins now d b = ground (
    arith,
    get-put (get_key identifier endpoint) (get_key identifier endpoint) (1, now) d,
    string_eq.beq_iff (get_key identifier endpoint) (get_key identifier endpoint),
  )

  admitted_inside :
      (ts : List ℕ) (d : Buckets) (c ws : ℕ)
      → bucket d ≡ some (c, ws)
      → AllUpTo (ws + seconds window_seconds) ts
      → (admitted (calls ts d).1 ≡ min (length ts) (max_requests - c))
        × ((c' : ℕ) × (bucket (calls ts d).0 ≡ some (c', ws)))
  unfolding serve
  admitted_inside [] d c ws e all = (omega arith, (c, e))
  admitted_inside (t ∷ ts) d c ws e all =
      let now = call_inside t d c ws e all.0 in
      let rest =
        admitted_inside ts (call t d).0 (if ltb c max_requests then c + 1 else c) ws now.1 all.1 in
      (ground (arith, now.0, rest.0), rest.1)

  -- A call that begins a window and those after it up to the window's end: exactly the first
  -- `max_requests` of them are allowed.
  window_exact :
      (now : ℕ) (ts : List ℕ) (d : Buckets)
      → 1 ≤ max_requests
      → Begins now d
      → AllUpTo (now + seconds window_seconds) ts
      → (admitted (calls (now ∷ ts) d).1 ≡ min (suc (length ts)) max_requests)
        × ((c : ℕ) × (bucket (calls (now ∷ ts) d).0 ≡ some (c, now)))
  unfolding serve
  window_exact now ts d pos b all =
      let first = call-Begins now d b in
      let rest = admitted_inside ts (call now d).0 1 now first.1 all in
      (ground (arith, first.0, rest.0), rest.1)

  admitted-append :
      (xs ys : List ℕ) (d : Buckets)
      → admitted (calls (xs ++ ys) d).1
        ≡ admitted (calls xs d).1 + admitted (calls ys (calls xs d).0).1
  unfolding serve
  admitted-append [] ys d = omega arith
  admitted-append (x ∷ xs) ys d = ground (arith, admitted-append xs ys (call x d).0)

-- The instants of `n` calls, all at `t`.
AllUpTo-replicate : (limit t n : ℕ) → t ≤ limit → AllUpTo limit (replicate n t)
AllUpTo-replicate limit t zero h = tt
AllUpTo-replicate limit t (suc n) h = (h, AllUpTo-replicate limit t n h)

length-replicate : (n t : ℕ) → length (replicate n t) ≡ n
length-replicate zero t = refl
length-replicate (suc n) t = ap suc (length-replicate n t)

-- Of the calls of one client at one endpoint from the one that begins a window up to the window's
-- end, exactly the first `max_requests` are allowed, where that is at least one.
pub allowed_in_window :
    (identifier endpoint : String) (max_requests window_seconds now : ℕ) (ts : List ℕ) (d : Buckets)
    → 1 ≤ max_requests
    → Begins identifier endpoint max_requests window_seconds now d
    → AllUpTo (now + seconds window_seconds) ts
    → admitted (serve identifier endpoint max_requests window_seconds (now ∷ ts) d).1
      ≡ min (suc (length ts)) max_requests
allowed_in_window identifier endpoint m w now ts d pos b all =
    (window_exact identifier endpoint m w now ts d pos b all).0

-- The limiter counts by fixed windows: with a limit of n + 1, one call that begins a window, n at
-- its last instant and n + 1 in the microsecond after that are all allowed, 2 n + 1 of them within
-- one microsecond.
burst_across_windows :
    (identifier endpoint : String) (n window_seconds t : ℕ) (d : Buckets)
    → Begins identifier endpoint (suc n) window_seconds t d
    → let last = t + seconds window_seconds in
      admitted
        (serve identifier endpoint
          (suc n)
          window_seconds
          ((t ∷ replicate n last) ++ (last + 1) ∷ replicate n (last + 1))
          d).1
      ≡ suc n + suc n
burst_across_windows identifier endpoint n w t d b =
    let last : ℕ = t + seconds w in
    let first =
      window_exact identifier endpoint (suc n) w t (replicate n last) d (omega arith) b
        (AllUpTo-replicate last last n (omega arith)) in
    let second =
      window_exact identifier endpoint (suc n) w (last + 1) (replicate n (last + 1))
        (serve identifier endpoint (suc n) w (t ∷ replicate n last) d).0 (omega arith)
        (inr (first.1.0, t, first.1.1, omega arith))
        (AllUpTo-replicate (last + 1 + seconds w) (last + 1) n (omega arith)) in
    omega (
      arith,
      admitted-append identifier endpoint (suc n) w (t ∷ replicate n last)
          ((last + 1) ∷ replicate n (last + 1)) d,
      first.0,
      second.0,
      length-replicate n last,
      length-replicate n (last + 1),
    )
