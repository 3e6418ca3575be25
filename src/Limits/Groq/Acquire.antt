-- ===== src/Limits/Groq/Acquire.antt =====
-- `acquire` ends by its timeout, and what its answer says.
use gexpense_tracker_public.Prelude.{
  ℕ, zero, suc, ◌+◌, ◌*◌, ◌≤◌, ◌<◌, String, ◌≡◌, ◌≢◌, refl, ◌⊎◌, Bool, true, false, none, some,
  arith, string_eq, leb, inl, inr,
}
use gexpense_tracker_public.Workers.Task.{seconds}
use gexpense_tracker_public.Limits.Groq.{
  GroqRateLimiter, Round, has_room, bucket_of, get_bucket, try_acquire, acquire_loop, acquire,
  wait_time,
}
use gexpense_tracker_public.Limits.Groq.Bounds.{try_acquire_lem}
use mathlib.Core.Option.{some-injective}
use mathlib.Core.Path.{subst}

-- From the round `n` on the clock of `time.time()` is not set back, and a sleep lasts at least as
-- long on it as was asked. Nothing is said of the rounds before.
pub record IsSteady (n : ℕ) (world : ℕ → Round) (start timeout : ℕ) : Type 0 where
  pub forward : (k : ℕ) → n ≤ k → (world k).checked ≤ (world k).measured
  pub wakes :
      (k : ℕ)
      → n ≤ k
      → (world k).measured + wait_time start timeout (world k).measured ≤ (world (suc k)).checked

module _ (n : ℕ) (world : ℕ → Round) (start timeout : ℕ) (steady : IsSteady n world start timeout)
    (model : String) (tokens : ℕ) where
  -- A round that does not end brings the clock a second on, or to the end of the timeout.
  round_advances :
      (k : ℕ)
      → n ≤ k
      → ((world k).checked + seconds 1 ≤ (world (suc k)).checked)
        ⊎ (start + timeout ≤ (world (suc k)).checked)
  unfolding wait_time
  round_advances k late = ground (arith, steady.forward k late, steady.wakes k late)

  loop_ends :
      (fuel k : ℕ) (l : GroqRateLimiter)
      → n ≤ k
      → start + timeout ≤ (world k).checked + fuel * seconds 1
      → acquire_loop world start timeout model tokens (suc fuel) k l ≢ none
  unfolding acquire_loop
  loop_ends zero k l late h = ground arith
  loop_ends (suc fuel) k l late h =
      let next = (world k).others (try_acquire model tokens l).0 in
      elim (round_advances k late) [
        | inl second ↦
            ground (arith, loop_ends fuel (suc k) next (omega (arith, late)) (omega arith))
        | inr over ↦ ground (arith, loop_ends fuel (suc k) next (omega (arith, late)) (omega arith))
      ]

  -- The rounds before the round `n`.
  loop_reaches :
      (rounds fuel k : ℕ) (l : GroqRateLimiter)
      → k + rounds ≡ n
      → start + timeout ≤ (world n).checked + fuel * seconds 1
      → acquire_loop world start timeout model tokens (rounds + suc fuel) k l ≢ none
  unfolding acquire_loop
  loop_reaches zero fuel k l here h =
      let same : k ≡ n = omega (arith, here) in
      let left : 0 + suc fuel ≡ suc fuel = omega arith in
      rw left (loop_ends fuel k l (omega (arith, here)) (rw same h))
  loop_reaches (suc rounds) fuel k l here h =
      let left : suc rounds + suc fuel ≡ suc (rounds + suc fuel) = omega arith in
      let rest =
        loop_reaches rounds fuel (suc k) ((world k).others (try_acquire model tokens l).0)
          (omega (arith, here)) h in
      rw left (ground (arith, rest))

-- `acquire` answers where from some round on the wall clock is not set back and every sleep lasts as
-- long on that clock as was asked: it takes at most the rounds before that one, that one, and a
-- round for each second, rounded up, that the clock then has to the end of the timeout, whatever
-- the clock shows before and whatever others do to the limiter while it sleeps.
pub acquire-ne-none :
    (n : ℕ) (world : ℕ → Round) (start timeout : ℕ) (model : String) (tokens fuel : ℕ)
    (l : GroqRateLimiter)
    → IsSteady n world start timeout
    → start + timeout ≤ (world n).checked + fuel * seconds 1
    → acquire world start timeout model tokens (n + suc fuel) l ≢ none
unfolding acquire
acquire-ne-none n world start timeout model tokens fuel l steady h =
    ground
      (arith, loop_reaches n world start timeout steady model tokens n fuel 0 l (omega arith) h)

-- The limiter on which the attempt of the round `k` is made.
abbrev pub at_round : (ℕ → Round) → String → ℕ → GroqRateLimiter → ℕ → GroqRateLimiter
at_round world model tokens l zero = l
at_round world model tokens l (suc k) =
    (world k).others (try_acquire model tokens (at_round world model tokens l k)).0

-- The rounds before the round `n` found no room, and the clock had not reached the timeout.
abbrev pub HaveWaited : (ℕ → Round) → ℕ → ℕ → String → ℕ → GroqRateLimiter → ℕ → Type 0
HaveWaited world start timeout model tokens l zero = Unit
HaveWaited world start timeout model tokens l (suc k) =
    (has_room tokens (bucket_of model (at_round world model tokens l k)) ≡ false)
    × ((world k).checked < start + timeout)
    × HaveWaited world start timeout model tokens l k

-- What an answer says of the round `n`, in which it was given.
abbrev pub AnswersAt :
    (ℕ → Round) → ℕ → ℕ → String → ℕ → GroqRateLimiter → ℕ → GroqRateLimiter × Bool → Type 0
AnswersAt world start timeout model tokens l n (l', true) =
    (has_room tokens (bucket_of model (at_round world model tokens l n)) ≡ true)
    × (l' ≡ (try_acquire model tokens (at_round world model tokens l n)).0)
AnswersAt world start timeout model tokens l n (l', false) =
    (has_room tokens (bucket_of model (at_round world model tokens l n)) ≡ false)
    × (start + timeout ≤ (world n).checked)
    × (l' ≡ get_bucket model (try_acquire model tokens (at_round world model tokens l n)).0)

-- What an answer of the loop that begins with the limiter says.
abbrev pub Answered :
    (ℕ → Round) → ℕ → ℕ → String → ℕ → GroqRateLimiter → GroqRateLimiter × Bool → Type 0
Answered world start timeout model tokens l r =
    (n : ℕ) × HaveWaited world start timeout model tokens l n
    × AnswersAt world start timeout model tokens l n r

acquired-try_acquire :
    (model : String) (tokens : ℕ) (l : GroqRateLimiter)
    → (try_acquire model tokens l).1 ≡ has_room tokens (bucket_of model l)
acquired-try_acquire model tokens l = (try_acquire_lem model tokens l).0

loop-Answered :
    (world : ℕ → Round) (start timeout : ℕ) (model : String) (tokens fuel k : ℕ)
    (l : GroqRateLimiter) (r : GroqRateLimiter × Bool)
    → HaveWaited world start timeout model tokens l k
    → acquire_loop world start timeout model tokens fuel k (at_round world model tokens l k)
      ≡ some r
    → Answered world start timeout model tokens l r
unfolding acquire_loop
loop-Answered world start timeout model tokens zero k l r waited e = absurd (cc)
loop-Answered world start timeout model tokens (suc fuel) k l r waited e =
    go (has_room tokens (bucket_of model (at_round world model tokens l k)))
      (leb (start + timeout) (world k).checked) refl refl
      (loop-Answered world start timeout model tokens fuel (suc k) l r)
  where
    go :
        (room late : Bool)
        → has_room tokens (bucket_of model (at_round world model tokens l k)) ≡ room
        → leb (start + timeout) (world k).checked ≡ late
        → (HaveWaited world start timeout model tokens l (suc k)
            → acquire_loop world start timeout model tokens fuel
                (suc k)
                (at_round world model tokens l (suc k))
              ≡ some r
            → Answered world start timeout model tokens l r)
        → Answered world start timeout model tokens l r
    go true late h t next = (
      k,
      waited,
      subst (AnswersAt world start timeout model tokens l k)
          (some-injective ((try_acquire model tokens (at_round world model tokens l k)).0, true) r
            (ground (arith, acquired-try_acquire model tokens (at_round world model tokens l k))))
          (h, refl),
    )
    go false true h t next = (
      k,
      waited,
      subst (AnswersAt world start timeout model tokens l k)
          (some-injective
            (get_bucket model (try_acquire model tokens (at_round world model tokens l k)).0, false)
            r (ground (arith, acquired-try_acquire model tokens (at_round world model tokens l k))))
          (h, ground arith, refl),
    )
    go false false h t next =
        next (h, ground arith, waited)
          (ground (arith, acquired-try_acquire model tokens (at_round world model tokens l k)))

pub acquire-Answered :
    (world : ℕ → Round) (start timeout : ℕ) (model : String) (tokens fuel : ℕ) (l : GroqRateLimiter)
    (r : GroqRateLimiter × Bool)
    → l.api_key ≢ ""
    → acquire world start timeout model tokens fuel l ≡ some r
    → Answered world start timeout model tokens l r
unfolding acquire
acquire-Answered world start timeout model tokens fuel l r key e =
    loop-Answered world start timeout model tokens fuel 0 l r tt
      (ground (arith, string_eq.beq_iff l.api_key ""))
