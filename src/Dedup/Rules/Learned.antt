-- ===== src/Dedup/Rules/Learned.antt =====
-- A user's own rules come before the global ones, and the learned rules keep their counts,
-- confidence and flag in step.
use gexpense_tracker_public.Prelude.{
  ℕ, ◌≡◌, inl, inr, refl, ap, ◌∙◌, ◌+◌, ◌*◌, ◌≤◌, ◌<◌, arith, Bool, true, false, ◌&&◌, ◌||◌, Option,
  none, some, List, [], ◌∷◌, ◌++◌, ltb, if◌then◌else◌, filter, if-elim, Bool-cases, pair_eq,
}
use gexpense_tracker_public.Prelude.Dict.{Dict, get, get-put}
use gexpense_tracker_public.Prelude.Text.{Text, text_equality}
use gexpense_tracker_public.Dedup.{Ratio, DomainPairRule}
use gexpense_tracker_public.Dedup.Rules.{
  is_global, is_own, put_rules, rules_map, learn, with_counts, new_rule, change_first, is_about,
  has_owner, learn_pair,
}

-- The last of the rows that is taken and has the two domains, or what stands for none.
unfoldable pub last_rule :
    (DomainPairRule → Bool)
    → Text × Text
    → List DomainPairRule
    → Option DomainPairRule
    → Option DomainPairRule
last_rule takes key [] found = found
last_rule takes key (r ∷ rows) found = last_rule takes key rows (
    if takes r then (if pair_eq.beq (r.domain_a, r.domain_b) key then some r else found) else found)

get-put_rules :
    (takes : DomainPairRule → Bool) (key : Text × Text) (rows : List DomainPairRule)
    (d : Dict (Text × Text) DomainPairRule)
    → get key (put_rules takes rows d) ≡ last_rule takes key rows (get key d)
unfolding put_rules last_rule
get-put_rules takes key [] d = refl
get-put_rules takes key (r ∷ rows) d = elim (Bool-cases (takes r)) [
  | inl e ↦ rw e (
      get-put_rules takes key rows _
      ∙ ap (last_rule takes key rows) (get-put (r.domain_a, r.domain_b) key r d))
  | inr e ↦ rw e (get-put_rules takes key rows d)
]

-- For each pair of domains, the rule that a user's map holds is the last of the user's own rules on
-- them in the table, and where the user has none, the last of the global ones.
pub get-rules_map :
    (user_id : ℕ) (table : List DomainPairRule) (domains : Text × Text)
    → (let rows = filter (λ r. is_own user_id r || is_global r) table in
        get domains (rules_map user_id table)
        ≡ last_rule (is_own user_id) domains rows (last_rule is_global domains rows none))
unfolding rules_map get
get-rules_map user_id table domains =
    get-put_rules (is_own user_id) domains _ _
    ∙ ap (last_rule (is_own user_id) domains _) (get-put_rules is_global domains _ [])

-- The confidence is the share of the confirmed resolutions, and the flag is set exactly when that
-- share is above the threshold and there are three of them.
unfoldable pub IsLearned : Ratio → DomainPairRule → Type 0
IsLearned threshold r =
    (r.confidence.num * (r.confirmed_count + r.dismissed_count)
      ≡ r.confirmed_count * r.confidence.den)
    × (r.confidence.num ≤ r.confidence.den)
    × (r.auto_resolve ≡ true
        → (threshold.num * (r.confirmed_count + r.dismissed_count)
            < threshold.den * r.confirmed_count)
          × (3 ≤ r.confirmed_count))

abbrev pub AreLearned : Ratio → List DomainPairRule → Type 0
AreLearned threshold [] = Unit
AreLearned threshold (r ∷ rows) = IsLearned threshold r × AreLearned threshold rows

with_counts-IsLearned :
    (threshold : Ratio) (c d : ℕ) (r : DomainPairRule)
    → ltb 0 (c + d) ≡ true
    → IsLearned threshold (with_counts threshold c d r)
unfolding IsLearned with_counts
with_counts-IsLearned threshold c d r some_count =
    (rw some_count refl, rw some_count (ground arith), λ set. ground arith)

learn-IsLearned :
    (threshold : Ratio) (confirmed : Bool) (r : DomainPairRule)
    → IsLearned threshold (learn threshold confirmed r)
unfolding learn
learn-IsLearned threshold true r = with_counts-IsLearned threshold _ _ r (ground arith)
learn-IsLearned threshold false r = with_counts-IsLearned threshold _ _ r (ground arith)

AreLearned-append :
    (threshold : Ratio) (rows : List DomainPairRule) (r : DomainPairRule)
    → AreLearned threshold rows
    → IsLearned threshold r
    → AreLearned threshold (rows ++ r ∷ [])
AreLearned-append threshold [] r p q = (q, tt)
AreLearned-append threshold (s ∷ rows) r p q = (p.0, AreLearned-append threshold rows r p.1 q)

abbrev pub AreLearnedIfSome : Ratio → Option (List DomainPairRule) → Type 0
AreLearnedIfSome threshold none = Unit
AreLearnedIfSome threshold (some rows) = AreLearned threshold rows

change_first-AreLearned :
    (threshold : Ratio) (takes : DomainPairRule → Bool) (confirmed : Bool)
    (rows : List DomainPairRule)
    → AreLearned threshold rows
    → AreLearnedIfSome threshold (change_first takes (learn threshold confirmed) rows)
unfolding change_first
change_first-AreLearned threshold takes confirmed [] p = tt
change_first-AreLearned threshold takes confirmed (r ∷ rows) p =
    if-elim (AreLearnedIfSome threshold) (takes r) _ _
      (λ e. (learn-IsLearned threshold confirmed r, p.1))
      (λ e.
        go (change_first takes (learn threshold confirmed) rows)
          (change_first-AreLearned threshold takes confirmed rows p.1))
  where
    go :
        (o : Option (List DomainPairRule))
        → AreLearnedIfSome threshold o
        → AreLearnedIfSome threshold (elim o [ none ↦ none | some rows' ↦ some (r ∷ rows') ])
    go none q = tt
    go (some rows') q = (p.0, q)

-- Where every rule of the table has a confidence that is the share of confirmed resolutions and a
-- flag that is set only above the threshold and with three confirmations, the same holds after any
-- resolution about any two domains.
pub learn_pair-AreLearned :
    (threshold : Ratio) (user_id : Option ℕ) (confirmed : Bool) (domains : Text × Text)
    (rows : List DomainPairRule)
    → AreLearned threshold rows
    → AreLearned threshold (learn_pair threshold user_id confirmed domains rows)
unfolding learn_pair
learn_pair-AreLearned threshold user_id confirmed domains rows p =
    own
      (change_first (λ r. is_about domains r && has_owner user_id r) (learn threshold confirmed)
        rows)
      (change_first-AreLearned threshold _ confirmed rows p)
  where
    global :
        (o : Option (List DomainPairRule))
        → AreLearnedIfSome threshold o
        → AreLearned threshold (elim o [
          | some rows' ↦ rows'
          | none ↦ rows ++ learn threshold confirmed (new_rule user_id domains) ∷ []
        ])
    global none q =
        AreLearned-append threshold rows _ p
          (learn-IsLearned threshold confirmed (new_rule user_id domains))
    global (some rows') q = q

    own :
        (o : Option (List DomainPairRule))
        → AreLearnedIfSome threshold o
        → AreLearned threshold (elim o [
          | some rows' ↦ rows'
          | none ↦
              elim (change_first
                (λ r. is_about domains r && is_global r)
                (learn threshold confirmed)
                rows) [
                  | some rows' ↦ rows'
                  | none ↦ rows ++ learn threshold confirmed (new_rule user_id domains) ∷ []
                ]
        ])
    own none q =
        global
          (change_first (λ r. is_about domains r && is_global r) (learn threshold confirmed) rows)
          (change_first-AreLearned threshold _ confirmed rows p)
    own (some rows') q = q
