-- ===== src/Classifier/Merchants.antt =====
-- `MerchantStore` of app/classifier/merchant_store.py, on the tables `user_merchant_overrides` and
-- `merchant_aliases`. `str.lower` is the parameter `lower`. An operation gives none where
-- `scalar_one_or_none` finds several rows and raises.
pub mod Tables
pub mod Refines
pub mod Lookup
use gexpense_tracker_public.Prelude.{
  ℕ, suc, ◌+◌, Bool, true, false, ◌&&◌, not, Option, none, some, List, [], ◌∷◌, ◌++◌, map, filter,
  if◌then◌else◌, is_some, pair_eq, Eq,
}
use gexpense_tracker_public.Prelude.Text.{Text, codes, text_equality, strip, is_empty}
use gexpense_tracker_public.Prelude.Dict.{Dict, get}

pub record UserMerchantOverride : Type 0 where
  pub user_id : Text
  pub merchant : Text
  pub category : Text

pub record MerchantAlias : Type 0 where
  pub user_id : Option Text
  pub raw : Text
  pub canonical : Text
  pub category : Option Text
  pub source : Text
  pub hit_count : ℕ

pub record MerchantTables : Type 0 where
  pub overrides : List UserMerchantOverride
  pub aliases : List MerchantAlias

-- `MERCHANT_MAP`: the name to show and the category
abbrev pub merchant_map : Dict Text (Text × Text)
merchant_map =
    (codes "swiggy", (codes "Swiggy", codes "Food"))
    ∷ (codes "swiggy instamart", (codes "Swiggy Instamart", codes "Groceries"))
    ∷ (codes "zomato", (codes "Zomato", codes "Food"))
    ∷ (codes "amazon", (codes "Amazon", codes "Shopping"))
    ∷ (codes "uber", (codes "Uber", codes "Travel"))
    ∷ (codes "bigbasket", (codes "BigBasket", codes "Groceries"))
    ∷ (codes "netflix", (codes "Netflix", codes "Subscriptions"))
    ∷ (codes "youtube premium", (codes "YouTube Premium", codes "Subscriptions"))
    ∷ (codes "anthropic", (codes "Anthropic", codes "Subscriptions"))
    ∷ (codes "openai", (codes "OpenAI", codes "Subscriptions"))
    ∷ (codes "claude", (codes "Anthropic", codes "Subscriptions"))
    ∷ (codes "chatgpt", (codes "OpenAI", codes "Subscriptions"))
    ∷ []

-- What `scalar_one_or_none` finds; it raises for several rows.
pub data Fetched {ℓ} (A : Type ℓ) : Type ℓ where
  absent several : Fetched A
  one : A → Fetched A

module _ {ℓ} {A : Type ℓ} where
  unfoldable pub one_or_none : List A → Fetched A
  one_or_none [] = absent
  one_or_none (r ∷ []) = one r
  one_or_none (r ∷ s ∷ rows) = several

  -- an assignment to a field of the rows of a key
  unfoldable pub change_rows : (A → Bool) → (A → A) → List A → List A
  change_rows p f [] = []
  change_rows p f (r ∷ rows) = (if p r then f r else r) ∷ change_rows p f rows

  -- the row of a query, changed where there is one and added where there is none
  unfoldable pub upsert : (A → Bool) → (A → A) → A → List A → Option (List A)
  unfolding one_or_none change_rows
  upsert p f row rows = elim (one_or_none (filter p rows)) [
    | absent ↦ some (rows ++ row ∷ [])
    | one r ↦ some (change_rows p f rows)
    | several ↦ none
  ]

  -- the row of a query, changed where there is one
  unfoldable pub update : (A → Bool) → (A → A) → List A → Option (List A)
  unfolding one_or_none change_rows
  update p f rows = elim (one_or_none (filter p rows)) [
    | absent ↦ some rows
    | one r ↦ some (change_rows p f rows)
    | several ↦ none
  ]

-- `_normalize`
unfoldable pub normalize : (Text → Text) → Text → Text
unfolding strip
normalize lower merchant = lower (strip merchant)

-- `UserMerchantOverride.user_id == user_id, UserMerchantOverride.merchant == key`
abbrev pub override_key : UserMerchantOverride → Text × Text
override_key r = (r.user_id, r.merchant)

unfoldable pub is_override : Text × Text → UserMerchantOverride → Bool
is_override k r = pair_eq.beq (override_key r) k

-- `MerchantAlias.canonical == key`
unfoldable pub is_alias : Text → MerchantAlias → Bool
is_alias key r = text_equality.beq r.canonical key

-- `if row:` of a text
unfoldable pub truthy : Option Text → Option Text
unfolding is_empty
truthy none = none
truthy (some t) = if is_empty t then none else some t

-- `MERCHANT_MAP.get(key)` and its category
unfoldable pub mapped_category : Text → Option Text
unfolding get
mapped_category key = elim (get key merchant_map) [ none ↦ none | some meta ↦ some meta.1 ]

-- The second and the third lookup of `get_category`, the first of the two made.
unfoldable pub alias_category : Text → Fetched MerchantAlias → Option (Option Text)
unfolding truthy mapped_category
alias_category key absent = some (mapped_category key)
alias_category key several = none
alias_category key (one r) =
    some (elim (truthy r.category) [ none ↦ mapped_category key | some c ↦ some c ])

-- `get_category`, the first lookup made
unfoldable pub override_category :
    Text → Fetched UserMerchantOverride → List MerchantAlias → Option (Option Text)
unfolding truthy alias_category is_alias one_or_none
override_category key found aliases =
    let others =
      alias_category key
        (one_or_none (filter (λ r. is_alias key r && is_some r.category) aliases)) in
    elim found [
      | absent ↦ others
      | several ↦ none
      | one r ↦ elim (truthy (some r.category)) [ none ↦ others | some c ↦ some (some c) ]
    ]

-- `get_category`
unfoldable pub get_category : (Text → Text) → Text → Text → MerchantTables → Option (Option Text)
unfolding normalize is_override one_or_none override_category
get_category lower user_id merchant s =
    let key = normalize lower merchant in
    override_category key (one_or_none (filter (is_override (user_id, key)) s.overrides)) s.aliases

-- `existing.category = category`
unfoldable pub set_override : Text → UserMerchantOverride → UserMerchantOverride
set_override category r = record { user_id = r.user_id; merchant = r.merchant; category = category }

-- `alias.category = category`
unfoldable pub set_alias : Option Text → ℕ → MerchantAlias → MerchantAlias
set_alias category hit_count r = record {
  user_id = r.user_id;
  raw = r.raw;
  canonical = r.canonical;
  category = category;
  source = r.source;
  hit_count = hit_count;
}

unfoldable pub with_tables :
    Option (List UserMerchantOverride) → Option (List MerchantAlias) → Option MerchantTables
with_tables none aliases = none
with_tables (some overrides) none = none
with_tables (some overrides) (some aliases) =
    some (record { overrides = overrides; aliases = aliases })

-- `correct`
unfoldable pub correct : (Text → Text) → Text → Text → Text → MerchantTables → Option MerchantTables
unfolding normalize is_override is_alias upsert update set_override set_alias with_tables
correct lower user_id merchant category s =
    let key = normalize lower merchant in
    with_tables
      (upsert (is_override (user_id, key)) (set_override category)
        (record { user_id = user_id; merchant = key; category = category }) s.overrides)
      (update (is_alias key) (λ r. set_alias (some category) r.hit_count r) s.aliases)

-- `if not alias.category: alias.category = category`
unfoldable pub fill : Text → Option Text → Option Text
unfolding truthy
fill category old = elim (truthy old) [ none ↦ some category | some c ↦ some c ]

-- `record`
unfoldable pub record_merchant :
    (Text → Text) → Text → Text → Text → MerchantTables → Option MerchantTables
unfolding normalize is_alias upsert set_alias fill with_tables
record_merchant lower user_id merchant category s =
    let key = normalize lower merchant in
    with_tables (some s.overrides) (
      upsert (is_alias key) (λ r. set_alias (fill category r.category) (suc r.hit_count) r)
        (record {
          user_id = some user_id;
          raw = key;
          canonical = key;
          category = some category;
          source = codes "rule_engine";
          hit_count = 1;
        })
        s.aliases)

-- A merchant of the file: its name, category and count.
abbrev pub Seed : Type 0
Seed = Text × Option Text × Option ℕ

abbrev pub or_default : Option ℕ → ℕ → ℕ
or_default none n = n
or_default (some m) n = m

-- One round of the loop of `seed_from_json`: the count and the aliases.
unfoldable pub seed_merchant :
    (Text → Text) → Seed → ℕ × List MerchantAlias → Option (ℕ × List MerchantAlias)
unfolding normalize is_alias upsert set_alias fill truthy is_empty
seed_merchant lower (raw, category, hits) (count, aliases) =
    let key = normalize lower raw in
    elim (if is_empty key then none else truthy category) [
      | none ↦ some (count, aliases)
      | some c ↦
          elim (upsert (is_alias key)
            (λ r. set_alias (fill c r.category) (r.hit_count + or_default hits 0) r)
            (record {
              user_id = none;
              raw = key;
              canonical = key;
              category = some c;
              source = codes "seeded";
              hit_count = or_default hits 1;
            })
            aliases) [ none ↦ none | some changed ↦ some (suc count, changed) ]
    ]

-- `seed_from_json` up to the commit, from the merchants of the file
unfoldable pub seed_from_json :
    (Text → Text) → List Seed → ℕ × List MerchantAlias → Option (ℕ × List MerchantAlias)
unfolding seed_merchant
seed_from_json lower [] state = some state
seed_from_json lower (seed ∷ seeds) state = elim (seed_merchant lower seed state) [
  | none ↦ none
  | some next ↦ seed_from_json lower seeds next
]
