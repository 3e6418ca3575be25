-- ===== src/Classifier/Merchants/Lookup.antt =====
-- What `get_category` returns, from what the store says.
use mathlib.Core.Path.{subst}
use mathlib.Core.Option.{some-injective}
use gexpense_tracker_public.Prelude.{
  ◌≡◌, refl, ap, sym, ◌∙◌, ◌≤◌, arith, Bool, true, false, ◌&&◌, Option, none, some, List, [], ◌∷◌,
  filter, length, if◌then◌else◌, is_some, pair_eq, Bool-cases, inl, inr,
}
use gexpense_tracker_public.Prelude.Text.{Text, text_equality, is_empty}
use gexpense_tracker_public.Classifier.Merchants.{
  UserMerchantOverride, MerchantAlias, MerchantTables, one_or_none, normalize, override_key,
  is_override, is_alias, truthy, mapped_category, alias_category, override_category, get_category,
  correct,
}
use gexpense_tracker_public.Classifier.Merchants.Tables.{
  map_option, first_row, to_fetched, one_or_none-first_row,
}
use gexpense_tracker_public.Classifier.Merchants.Refines.{
  View, view, IsKeyed, corrected, correct-refines,
}

abbrev pub or_else : Option Text → Option Text → Option Text
or_else none rest = rest
or_else (some c) rest = some c

abbrev pub flat : Option (Option Text) → Option Text
flat none = none
flat (some c) = c

-- The first category that is not empty: the user's, the alias's, the map's.
abbrev pub category_of : Text → Text → View → Option Text
category_of user_id key v =
    or_else (truthy (v.override_of (user_id, key)))
      (or_else (truthy (flat (v.alias_of key))) (mapped_category key))

filter-both_empty :
    (p q : MerchantAlias → Bool) (rows : List MerchantAlias)
    → length (filter p rows) ≡ 0
    → filter (λ r. p r && q r) rows ≡ []
filter-both_empty p q [] h = refl
filter-both_empty p q (r ∷ rows) h = ground (arith, filter-both_empty p q rows)

alias_category-empty :
    (key : Text)
    → alias_category key (one_or_none []) ≡ some (or_else (truthy none) (mapped_category key))
unfolding alias_category one_or_none truthy
alias_category-empty key = refl

alias_category-one :
    (key : Text) (r : MerchantAlias) (category : Option Text)
    → r.category ≡ category
    → alias_category key (one_or_none (if is_some category then r ∷ [] else []))
      ≡ some (or_else (truthy category) (mapped_category key))
unfolding alias_category one_or_none truthy
alias_category-one key r none e = refl
alias_category-one key r (some c) e =
    rw (e, alias_category) (or_else-elim (truthy (some c)) (mapped_category key))
  where
    or_else-elim :
        (o rest : Option Text)
        → some (elim o [ none ↦ rest | some c ↦ some c ]) ≡ some (or_else o rest)
    or_else-elim none rest = refl
    or_else-elim (some c) rest = refl

-- An alias without a category is not in the second query.
alias_category-first_row :
    (key : Text) (rows : List MerchantAlias)
    → length (filter (is_alias key) rows) ≤ 1
    → alias_category key (one_or_none (filter (λ r. is_alias key r && is_some r.category) rows))
      ≡ some (
          or_else
            (truthy (flat (map_option (λ r. r.category) (first_row (λ r. r.canonical) key rows))))
            (mapped_category key))
unfolding is_alias first_row
alias_category-first_row key [] h = alias_category-empty key
alias_category-first_row key (r ∷ rows) h = elim (Bool-cases (text_equality.beq r.canonical key)) [
  | inl e ↦
      let rest =
        filter-both_empty (is_alias key) (λ r. is_some r.category) rows (ground (arith, e, h)) in
      rw e (
        ap (λ rs. alias_category key (one_or_none (if is_some r.category then r ∷ rs else rs))) rest
        ∙ alias_category-one key r r.category refl)
  | inr e ↦ rw e (alias_category-first_row key rows (ground (arith, e, h)))
]

override_category-fetched :
    (key : Text) (found : Option UserMerchantOverride) (aliases : List MerchantAlias)
    (others : Option Text)
    → alias_category key (one_or_none (filter (λ r. is_alias key r && is_some r.category) aliases))
      ≡ some others
    → override_category key (to_fetched override_key found) aliases
      ≡ some (or_else (truthy (map_option (λ r. r.category) found)) others)
unfolding override_category
override_category-fetched key none aliases others h = h
override_category-fetched key (some r) aliases others h =
    first_of (truthy (some r.category)) _ others h
  where
    first_of :
        (o : Option Text) (rest : Option (Option Text)) (others : Option Text)
        → rest ≡ some others
        → elim o [ none ↦ rest | some c ↦ some (some c) ] ≡ some (or_else o others)
    first_of none rest others h = h
    first_of (some c) rest others h = refl

-- The category of a merchant for a user is what the store says: the user's own, or else the alias's,
-- or else the map's, where no user has two rows for a merchant and no name two aliases.
pub get_category-view :
    (lower : Text → Text) (user_id merchant : Text) (s : MerchantTables)
    → IsKeyed s
    → get_category lower user_id merchant s
      ≡ some (category_of user_id (normalize lower merchant) (view s))
unfolding get_category is_override view
get_category-view lower user_id merchant s keyed =
    let key = normalize lower merchant in
    ap (λ found. override_category key found s.aliases)
      (one_or_none-first_row override_key (user_id, key) s.overrides (keyed.0 (user_id, key)))
    ∙ override_category-fetched key (first_row override_key (user_id, key) s.overrides) s.aliases _
        (alias_category-first_row key s.aliases (keyed.1 key))

category_of-corrected :
    (user_id key category : Text) (v : View)
    → is_empty category ≡ false
    → category_of user_id key (corrected user_id key category v) ≡ some category
unfolding truthy
category_of-corrected user_id key category v filled =
    let own : pair_eq.beq (user_id, key) (user_id, key) ≡ true =
      (pair_eq.beq_iff (user_id, key) (user_id, key)).1 refl in
    rw own (rw filled refl)

-- After a correction to a category that is not empty, the merchant has it for that user, where no user
-- has two rows for a merchant and no name two aliases.
get_category-correct :
    (lower : Text → Text) (user_id merchant category : Text) (s s' : MerchantTables)
    → IsKeyed s
    → is_empty category ≡ false
    → correct lower user_id merchant category s ≡ some s'
    → get_category lower user_id merchant s' ≡ some (some category)
get_category-correct lower user_id merchant category s s' keyed filled e =
    let done = correct-refines lower user_id merchant category s keyed in
    let same : done.0 ≡ s' = some-injective _ _ (sym done.1 ∙ e) in
    subst (λ t. get_category lower user_id merchant t ≡ some (some category)) same
      (get_category-view lower user_id merchant done.0 done.2
        ∙ ap (λ v. some (category_of user_id (normalize lower merchant) v)) done.3
        ∙ ap some
            (category_of-corrected user_id (normalize lower merchant) category (view s) filled))
