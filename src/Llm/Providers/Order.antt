-- ===== src/Llm/Providers/Order.antt =====
-- The ranking of the providers.
use gexpense_tracker_public.Prelude.{
  ℕ, suc, ◌≡◌, refl, ap, ◌∙◌, arith, true, false, List, [], ◌∷◌, map, filter, length, if-elim,
}
use gexpense_tracker_public.Llm.Providers.{
  Provider, available, should_reset_rate_limit, with_limits, refresh, score_leb, insert_provider,
  sort_providers, rank_providers,
}

-- Each score is at most the next.
unfoldable pub IsRanked : List Provider → Type 0
IsRanked [] = Unit
IsRanked (p ∷ []) = Unit
IsRanked (p ∷ q ∷ qs) = (score_leb p q ≡ true) × IsRanked (q ∷ qs)

abbrev pub AreAvailable : ℕ → List Provider → Type 0
AreAvailable now [] = Unit
AreAvailable now (p ∷ ps) = (available now p ≡ true) × AreAvailable now ps

score_leb-total : (p q : Provider) → score_leb p q ≡ false → score_leb q p ≡ true
unfolding score_leb
score_leb-total p q h = ground arith

insert_provider-IsRanked :
    (p : Provider) (ps : List Provider) → IsRanked ps → IsRanked (insert_provider p ps)
unfolding insert_provider IsRanked
insert_provider-IsRanked p [] h = tt
insert_provider-IsRanked p (q ∷ []) h = ground (arith, score_leb-total p q)
insert_provider-IsRanked p (q ∷ r ∷ rs) h =
    ground (arith, score_leb-total p q, insert_provider-IsRanked p (r ∷ rs) h.1)

insert_provider-AreAvailable :
    (now : ℕ) (p : Provider) (ps : List Provider)
    → available now p ≡ true
    → AreAvailable now ps
    → AreAvailable now (insert_provider p ps)
unfolding insert_provider
insert_provider-AreAvailable now p [] h k = (h, tt)
insert_provider-AreAvailable now p (q ∷ qs) h k =
    if-elim (AreAvailable now) (score_leb p q) _ _ (λ e. (h, k))
      (λ e. (k.0, insert_provider-AreAvailable now p qs h k.1))

length-insert_provider :
    (p : Provider) (ps : List Provider) → length (insert_provider p ps) ≡ suc (length ps)
unfolding insert_provider
length-insert_provider p [] = refl
length-insert_provider p (q ∷ qs) = ground (arith, length-insert_provider p qs)

sort_providers-IsRanked : (ps : List Provider) → IsRanked (sort_providers ps)
unfolding sort_providers IsRanked
sort_providers-IsRanked [] = tt
sort_providers-IsRanked (p ∷ ps) =
    insert_provider-IsRanked p (sort_providers ps) (sort_providers-IsRanked ps)

sort_providers-AreAvailable :
    (now : ℕ) (ps : List Provider) → AreAvailable now ps → AreAvailable now (sort_providers ps)
unfolding sort_providers
sort_providers-AreAvailable now [] h = tt
sort_providers-AreAvailable now (p ∷ ps) h =
    insert_provider-AreAvailable now p (sort_providers ps) h.0
      (sort_providers-AreAvailable now ps h.1)

length-sort_providers : (ps : List Provider) → length (sort_providers ps) ≡ length ps
unfolding sort_providers
length-sort_providers [] = refl
length-sort_providers (p ∷ ps) =
    length-insert_provider p (sort_providers ps) ∙ ap suc (length-sort_providers ps)

available-refresh :
    (now : ℕ) (p : Provider) → available now p ≡ true → available now (refresh now p) ≡ true
unfolding available refresh with_limits
available-refresh now p h =
    if-elim (λ q. available now q ≡ true) (should_reset_rate_limit now p) _ _ (λ e. h) (λ e. h)

AreAvailable-filter :
    (now : ℕ) (ps : List Provider)
    → AreAvailable now (map (refresh now) (filter (available now) ps))
AreAvailable-filter now [] = tt
AreAvailable-filter now (p ∷ ps) =
    if-elim (λ qs. AreAvailable now (map (refresh now) qs)) (available now p) _ _
      (λ e. (available-refresh now p e, AreAvailable-filter now ps))
      (λ e. AreAvailable-filter now ps)

length-map : (now : ℕ) (ps : List Provider) → length (map (refresh now) ps) ≡ length ps
length-map now [] = refl
length-map now (p ∷ ps) = ap suc (length-map now ps)

-- The ranking has as many providers as are available, only such as are, and each one's score is at
-- most the next one's.
pub rank_providers-IsRanked :
    (now : ℕ) (providers : List Provider)
    → IsRanked (rank_providers now providers)
      × AreAvailable now (rank_providers now providers)
      × (length (rank_providers now providers) ≡ length (filter (available now) providers))
unfolding rank_providers
rank_providers-IsRanked now providers =
    let ready = filter (available now) providers in
    (
      sort_providers-IsRanked (map (refresh now) ready),
      sort_providers-AreAvailable now (map (refresh now) ready) (AreAvailable-filter now providers),
      length-sort_providers (map (refresh now) ready) ∙ length-map now ready,
    )
