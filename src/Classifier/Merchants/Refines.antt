-- ===== src/Classifier/Merchants/Refines.antt =====
-- The store as what it says of users and merchants, and its operations on that.
use gexpense_tracker_public.Prelude.{
  suc, ◌≡◌, refl, ap, ◌∙◌, Bool, true, false, Option, none, some, if◌then◌else◌, pair_eq,
}
use gexpense_tracker_public.Prelude.Text.{Text, codes, text_equality}
use gexpense_tracker_public.Classifier.Merchants.{
  UserMerchantOverride, MerchantAlias, MerchantTables, normalize, override_key, is_override,
  is_alias, set_override, set_alias, with_tables, correct, fill, record_merchant,
}
use gexpense_tracker_public.Classifier.Merchants.Tables.{
  map_option, first_row, IsUnique, upserted, upsert-first_row, update-first_row,
}

-- The category that a user gave a merchant, and the one of the alias of a name, where there is one.
pub record View : Type 0 where
  pub override_of : Text × Text → Option Text
  pub alias_of : Text → Option (Option Text)

unfoldable pub view : MerchantTables → View
unfolding first_row
view s = record {
  override_of = λ k. map_option (λ r. r.category) (first_row override_key k s.overrides);
  alias_of = λ k. map_option (λ r. r.category) (first_row (λ r. r.canonical) k s.aliases);
}

-- No user has two rows for a merchant, and no name two aliases.
abbrev pub IsKeyed : MerchantTables → Type 0
IsKeyed s =
    IsUnique override_key s.overrides × IsUnique (λ (r : MerchantAlias). r.canonical) s.aliases

-- What a correction does to what the store says.
abbrev pub corrected : Text → Text → Text → View → View
corrected user_id key category v = record {
  override_of = λ k. if pair_eq.beq (user_id, key) k then some category else v.override_of k;
  alias_of = λ k.
      if text_equality.beq key k
      then map_option (λ c. some category) (v.alias_of key)
      else v.alias_of k;
}

-- What a recording does to what the store says.
abbrev pub filled : Text → Option (Option Text) → Option Text
filled category none = some category
filled category (some c) = fill category c

abbrev pub recorded : Text → Text → View → View
recorded key category v = record {
  override_of = v.override_of;
  alias_of = λ k.
      if text_equality.beq key k then some (filled category (v.alias_of key)) else v.alias_of k;
}

same_view :
    (v w : View)
    → ((k : Text × Text) → v.override_of k ≡ w.override_of k)
    → ((k : Text) → v.alias_of k ≡ w.alias_of k)
    → v ≡ w
same_view v w p q = λ i. record { override_of = λ k. p k i; alias_of = λ k. q k i }

override_upserted :
    (b : Bool) (user_id key category : Text) (found other : Option UserMerchantOverride)
    → map_option
        (λ r. r.category)
        (if b
          then some (
              upserted override_key
                (set_override category)
                (record { user_id = user_id; merchant = key; category = category })
                found)
          else other)
      ≡ (if b then some category else map_option (λ r. r.category) other)
unfolding set_override
override_upserted true user_id key category none other = refl
override_upserted true user_id key category (some r) other = refl
override_upserted false user_id key category found other = refl

alias_updated :
    (b : Bool) (category : Text) (found other : Option MerchantAlias)
    → map_option
        (λ r. r.category)
        (if b then map_option (λ r. set_alias (some category) r.hit_count r) found else other)
      ≡ (if b
          then map_option (λ c. some category) (map_option (λ r. r.category) found)
          else map_option (λ r. r.category) other)
unfolding set_alias
alias_updated true category none other = refl
alias_updated true category (some r) other = refl
alias_updated false category found other = refl

alias_upserted :
    (b : Bool) (user_id key category : Text) (found other : Option MerchantAlias)
    → map_option
        (λ r. r.category)
        (if b
          then some (
              upserted
                (λ (r : MerchantAlias). r.canonical)
                (λ r. set_alias (fill category r.category) (suc r.hit_count) r)
                (record {
                  user_id = some user_id;
                  raw = key;
                  canonical = key;
                  category = some category;
                  source = codes "rule_engine";
                  hit_count = 1;
                })
                found)
          else other)
      ≡ (if b
          then some (filled category (map_option (λ r. r.category) found))
          else map_option (λ r. r.category) other)
unfolding set_alias
alias_upserted true user_id key category none other = refl
alias_upserted true user_id key category (some r) other = refl
alias_upserted false user_id key category found other = refl

-- Correcting a category succeeds, where no user has two rows for a merchant and no name two aliases,
-- and what the store says then is what it said, with the category for that user and merchant and for
-- the alias of that name.
pub correct-refines :
    (lower : Text → Text) (user_id merchant category : Text) (s : MerchantTables)
    → IsKeyed s
    → (s' : MerchantTables) × (correct lower user_id merchant category s ≡ some s')
      × IsKeyed s'
      × (view s' ≡ corrected user_id (normalize lower merchant) category (view s))
unfolding correct is_override is_alias set_override set_alias with_tables view
correct-refines lower user_id merchant category s keyed =
    let key = normalize lower merchant in
    let one_override =
      upsert-first_row override_key (set_override category) (user_id, key)
        (record { user_id = user_id; merchant = key; category = category }) s.overrides (λ r. refl)
        refl keyed.0 in
    let one_alias =
      update-first_row (λ (r : MerchantAlias). r.canonical)
        (λ r. set_alias (some category) r.hit_count r) key s.aliases (λ r. refl) keyed.1 in
    let after : MerchantTables = record { overrides = one_override.0; aliases = one_alias.0 } in
    (
      after,
      (λ i. with_tables (one_override.1 i) (one_alias.1 i)),
      (one_override.2, one_alias.2),
      same_view (view after) (corrected user_id key category (view s))
          (λ k.
            ap (map_option (λ (r : UserMerchantOverride). r.category)) (one_override.3 k)
            ∙ override_upserted (pair_eq.beq (user_id, key) k) user_id key category
                (first_row override_key (user_id, key) s.overrides)
                (first_row override_key k s.overrides))
          (λ k.
            ap (map_option (λ (r : MerchantAlias). r.category)) (one_alias.3 k)
            ∙ alias_updated (text_equality.beq key k) category
                (first_row (λ r. r.canonical) key s.aliases)
                (first_row (λ r. r.canonical) k s.aliases)),
    )

-- Recording a merchant succeeds, where no name has two aliases, and what the store says then is what
-- it said, with the category for the alias of the name when that had none.
pub record_merchant-refines :
    (lower : Text → Text) (user_id merchant category : Text) (s : MerchantTables)
    → IsKeyed s
    → (s' : MerchantTables) × (record_merchant lower user_id merchant category s ≡ some s')
      × IsKeyed s'
      × (view s' ≡ recorded (normalize lower merchant) category (view s))
unfolding record_merchant is_alias set_alias with_tables view
record_merchant-refines lower user_id merchant category s keyed =
    let key = normalize lower merchant in
    let one_alias =
      upsert-first_row (λ (r : MerchantAlias). r.canonical)
        (λ r. set_alias (fill category r.category) (suc r.hit_count) r) key
        (record {
          user_id = some user_id;
          raw = key;
          canonical = key;
          category = some category;
          source = codes "rule_engine";
          hit_count = 1;
        })
        s.aliases (λ r. refl) refl keyed.1 in
    let after : MerchantTables = record { overrides = s.overrides; aliases = one_alias.0 } in
    (
      after,
      (λ i. with_tables (some s.overrides) (one_alias.1 i)),
      (keyed.0, one_alias.2),
      same_view (view after) (recorded key category (view s)) (λ k. refl)
          (λ k.
            ap (map_option (λ (r : MerchantAlias). r.category)) (one_alias.3 k)
            ∙ alias_upserted (text_equality.beq key k) user_id key category
                (first_row (λ r. r.canonical) key s.aliases)
                (first_row (λ r. r.canonical) k s.aliases)),
    )
