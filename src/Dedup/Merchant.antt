-- ===== src/Dedup/Merchant.antt =====
-- `_normalize_merchant` and `_merchant_match` of app/dedup/service.py. `lower` stands for
-- `str.lower` and its Unicode tables.
use gexpense_tracker_public.Prelude.{
  ℕ, Bool, false, ◌&&◌, ◌||◌, not, Option, none, some, List, [], ◌∷◌, ◌==◌, ltb, length, filter,
  max, string_eq, if◌then◌else◌, String, map,
}
use gexpense_tracker_public.Prelude.Dict.{Dict, get}
use gexpense_tracker_public.Prelude.Members.{mem}
use gexpense_tracker_public.Prelude.Text.{
  Text, codes, text_equality, is_space, split_at, join_words,
}
use gexpense_tracker_public.Dedup.{Ratio}

-- `_MERCHANT_STOP`
abbrev pub merchant_stop : List Text
merchant_stop = map codes (
    "the" ∷ "and" ∷ "for" ∷ "of" ∷ "on" ∷ "at" ∷ "to" ∷ "in" ∷ "by" ∷ "pvt" ∷ "ltd" ∷ "limited"
    ∷ "private" ∷ "india" ∷ "indian" ∷ "services" ∷ "solutions" ∷ "technologies" ∷ "inc" ∷ "corp"
    ∷ "company" ∷ "llc" ∷ "payments" ∷ "payment" ∷ [])

-- `[\s\-_./,]`
unfoldable pub is_separator : ℕ → Bool
unfolding is_space
is_separator c = is_space c || c == b'-' || c == b'_' || c == b'.' || c == b'/' || c == b','

unfoldable pub is_kept : Text → Bool
unfolding mem
is_kept w = not (mem w merchant_stop) && ltb 1 (length w)

-- `_normalize_merchant`. A run of separators leaves empty pieces, which are too short to be kept.
unfoldable pub normalize_merchant : (Text → Text) → Option Text → Text
unfolding is_separator is_kept split_at join_words
normalize_merchant lower none = []
normalize_merchant lower (some []) = []
normalize_merchant lower (some (c ∷ name)) =
    join_words (filter is_kept (split_at is_separator (lower (c ∷ name))))

-- `_DOMAIN_TO_CANONICAL`
abbrev pub domain_to_canonical : Dict Text String
domain_to_canonical =
    (codes "swiggy.in", "swiggy")
    ∷ (codes "bundl.in", "swiggy")
    ∷ (codes "bundltechnologies.com", "swiggy")
    ∷ (codes "zomato.com", "zomato")
    ∷ (codes "zomatohyperpure.com", "zomato")
    ∷ (codes "amazon.in", "amazon")
    ∷ (codes "amazonpay.in", "amazon")
    ∷ (codes "amazonpayments.in", "amazon")
    ∷ (codes "flipkart.com", "flipkart")
    ∷ (codes "ekart.com", "flipkart")
    ∷ (codes "uber.com", "uber")
    ∷ (codes "ubereats.com", "uber")
    ∷ (codes "irctc.co.in", "irctc")
    ∷ (codes "irctctourism.com", "irctc")
    ∷ (codes "bookmyshow.com", "bookmyshow")
    ∷ (codes "bmsprime.in", "bookmyshow")
    ∷ (codes "myntra.com", "myntra")
    ∷ (codes "myntrafashion.com", "myntra")
    ∷ (codes "paytm.com", "paytm")
    ∷ (codes "paytmmall.com", "paytm")
    ∷ (codes "phonepe.com", "phonepe")
    ∷ (codes "phonepe.in", "phonepe")
    ∷ []

-- `set(words)`, and `len(words1 & words2)` for two of them
unfoldable pub word_set : List Text → List Text
unfolding mem
word_set [] = []
word_set (w ∷ ws) = let rest = word_set ws in if mem w rest then rest else w ∷ rest

-- `set(n.split())`: `str.split` drops empty pieces
unfoldable pub words_of : Text → List Text
unfolding word_set split_at is_space
words_of n = word_set (filter (λ w. ltb 0 (length w)) (split_at is_space n))

unfoldable pub overlap : List Text → List Text → ℕ
unfolding mem
overlap s t = length (filter (λ w. mem w t) s)

unfoldable pub same_canonical : Option String → Option String → Bool
same_canonical none c = false
same_canonical (some c) none = false
same_canonical (some c) (some d) = string_eq.beq c d

-- The fall-back on the domains, where a name is empty.
unfoldable pub domain_match : (Text → Text) → Text → Text → Ratio
unfolding same_canonical get
domain_match lower d1 d2 =
    if same_canonical (get (lower d1) domain_to_canonical) (get (lower d2) domain_to_canonical)
    then record { num = 7; den = 10 }
    else record { num = 0; den = 1 }

unfoldable pub word_match : List Text → List Text → Ratio
unfolding overlap
word_match [] t = record { num = 0; den = 1 }
word_match (w ∷ s) [] = record { num = 0; den = 1 }
word_match (w ∷ s) (v ∷ t) = record {
  num = overlap (w ∷ s) (v ∷ t);
  den = max (length (w ∷ s)) (length (v ∷ t));
}

unfoldable pub name_match : (Text → Text) → Text → Text → Text → Text → Ratio
unfolding domain_match word_match words_of
name_match lower n1 n2 d1 d2 =
    if length n1 == 0 || length n2 == 0
    then domain_match lower d1 d2
    else (if text_equality.beq n1 n2
        then record { num = 1; den = 1 }
        else word_match (words_of n1) (words_of n2))

-- `_merchant_match`
unfoldable pub merchant_match : (Text → Text) → Option Text → Option Text → Text → Text → Ratio
unfolding normalize_merchant name_match
merchant_match lower m1 m2 d1 d2 =
    name_match lower (normalize_merchant lower m1) (normalize_merchant lower m2) d1 d2
