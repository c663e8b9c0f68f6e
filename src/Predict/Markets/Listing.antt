-- ===== src/Predict/Markets/Listing.antt =====
-- What the market endpoints of app/api/v1/predict.py show.
use ax_server.Prelude.{
  ℕ, ◌≡◌, ◌⊎◌, refl, sym, ap, ◌∙◌, Option, some, none, List, [], ◌∷◌, inl, inr, map, Option-cases,
  Bool-cases, All, All-keep_if, ◌==◌,
}
use mathlib.Core.Path.{subst}
use ax_server.Prelude.Text.{Str, is_empty}
use ax_server.Prelude.Error.{ok, >>=-ok, ok-injective}
use ax_server.Predict.Registry.{RegistryFile, RegisteredMarket}
use ax_server.Predict.Stats.{load_markets}
use ax_server.Store.{Client, get_volume_stats_by_pair, get_pool}
use ax_server.Predict.Markets.Seeds.{Seed}
use ax_server.Predict.Markets.{
  Decimals, PredictMarket, build_market, get_markets, chain_of_request, call_with_request,
  volumes_from, updates_of, price_updates, volume_updates, updated, enrich_market, enrich_markets,
  in_category, list_prediction_markets, find_market, first_match, first_of, get_prediction_market,
  Pairs, Dict, VolumeStats,
}
use mathlib.Core.Option

module _ {F : Type 0} (dec : Decimals F) where
  find_market-map :
      (f : PredictMarket F → PredictMarket F)
      → ((m : PredictMarket F) → (f m).id ≡ m.id)
      → (id : ℕ) (ms : List (PredictMarket F))
      → find_market dec id (map f ms) ≡ Option.map f (find_market dec id ms)
  unfolding find_market
  find_market-map f same id [] = refl
  find_market-map f same id (m ∷ ms) = elim (Bool-cases (m.id == id)) [
    | inl e ↦ rw e (rw (same m, e) refl)
    | inr e ↦ rw e (rw (same m, e) (find_market-map f same id ms))
  ]

  enrich_market-id :
      (chain : Option Pairs) (volumes : Dict Str (VolumeStats F)) (registry : List RegisteredMarket)
      (m : PredictMarket F)
      → (enrich_market dec chain volumes registry m).id ≡ m.id
  unfolding enrich_market updated
  enrich_market-id chain volumes registry m = refl

  -- Once the list is answered, the endpoint of one market answers with the list's entry of its id, and
  -- without a market where the list has none.
  pub get_prediction_market-listed :
      (qdb : Option (Client F)) (file : RegistryFile) (seeds : List Seed) (id : ℕ)
      (shown : List (PredictMarket F))
      → list_prediction_markets dec qdb file seeds none ≡ ok shown
      → get_prediction_market dec qdb file seeds id ≡ ok (find_market dec id shown)
  unfolding list_prediction_markets enrich_markets in_category get_prediction_market first_of
  get_prediction_market-listed qdb file seeds id shown h =
      let (registry, loaded, h') = >>=-ok (load_markets file) _ shown h in
      let f = enrich_market dec chain_of_request (volumes_from dec qdb) registry in
      let found : find_market dec id shown
          ≡ Option.map f (find_market dec id (get_markets dec seeds)) =
        ap (find_market dec id) (sym (ok-injective h'))
        ∙ find_market-map f (enrich_market-id chain_of_request (volumes_from dec qdb) registry) id
            (get_markets dec seeds) in
      elim (Option-cases (find_market dec id (get_markets dec seeds))) [
        | inl e ↦ rw (e, get_prediction_market) (ap ok (sym (found ∙ ap (Option.map f) e)))
        | inr (m, e) ↦
            rw (e, get_prediction_market, enrich_markets, loaded)
              (ap ok (sym (found ∙ ap (Option.map f) e)))
      ]

  -- Even prices, and volumes of zero, or of the rounded sum of two zeros
  pub record IsUntouched (m : PredictMarket F) : Type 0 where
    pub yes_even : m.yes_price ≡ dec.half
    pub no_even : m.no_price ≡ dec.half
    pub no_day :
        (m.trading_volume ≡ dec.zero) ⊎ (m.trading_volume ≡ dec.round (dec.add dec.zero dec.zero) 2)
    pub no_lifetime :
        (m.lifetime_volume ≡ dec.zero)
        ⊎ (m.lifetime_volume ≡ dec.round (dec.add dec.zero dec.zero) 2)

  IsBuilt : PredictMarket F → Type 0
  IsBuilt m =
      (m.yes_price ≡ dec.half)
      × (m.no_price ≡ dec.half)
      × (m.trading_volume ≡ dec.zero)
      × (m.lifetime_volume ≡ dec.zero)

  get_markets-IsBuilt : (seeds : List Seed) → All IsBuilt (get_markets dec seeds)
  unfolding get_markets build_market IsBuilt
  get_markets-IsBuilt [] = tt
  get_markets-IsBuilt (s ∷ seeds) = ((refl, refl, refl, refl), get_markets-IsBuilt seeds)

  in_category-IsBuilt :
      (category : Option Str) (ms : List (PredictMarket F))
      → All IsBuilt ms
      → All IsBuilt (in_category dec category ms)
  unfolding in_category
  in_category-IsBuilt none ms h = h
  in_category-IsBuilt (some c) ms h = elim (Bool-cases (is_empty c)) [
    | inl e ↦ rw e h
    | inr e ↦ rw e (All-keep_if IsBuilt _ ms h)
  ]

  volumes_from-none : (qdb : Option (Client F)) → volumes_from dec qdb ≡ []
  unfolding volumes_from get_volume_stats_by_pair get_pool
  volumes_from-none none = refl
  volumes_from-none (some qdb) = refl

  no_chain : chain_of_request ≡ none
  unfolding chain_of_request call_with_request
  no_chain = refl

  updates_of-IsUntouched :
      (rm : Option RegisteredMarket) (m : PredictMarket F)
      → IsBuilt m
      → IsUntouched (updated dec (updates_of dec none [] rm) m)
  unfolding updates_of updated price_updates volume_updates IsBuilt
  updates_of-IsUntouched none m (y, n, v, l) = record {
    yes_even = y;
    no_even = n;
    no_day = inl v;
    no_lifetime = inl l;
  }
  updates_of-IsUntouched (some rm) m (y, n, v, l) =
      elim (Bool-cases (is_empty (Option.get_or rm.yes_pair_address []))) [
        | inl e ↦
            rw (e, updates_of)
              (record { yes_even = y; no_even = n; no_day = inl v; no_lifetime = inl l })
        | inr e ↦ elim (Bool-cases (is_empty (Option.get_or rm.no_pair_address []))) [
          | inl e' ↦
              rw (e, e', updates_of)
                (record { yes_even = y; no_even = n; no_day = inl v; no_lifetime = inl l })
          | inr e' ↦
              rw (e, e', updates_of)
                (record { yes_even = y; no_even = n; no_day = inr refl; no_lifetime = inr refl })
        ]
      ]

  map-All :
      (P Q : PredictMarket F → Type 0) (f : PredictMarket F → PredictMarket F)
      → ((m : PredictMarket F) → P m → Q (f m))
      → (ms : List (PredictMarket F)) → All P ms
      → All Q (map f ms)
  map-All P Q f step [] h = tt
  map-All P Q f step (m ∷ ms) h = (step m h.0, map-All P Q f step ms h.1)

  map-same :
      {A B C : Type 0} (g : A → C) (h : B → C) (f : A → B)
      → ((a : A) → h (f a) ≡ g a)
      → (xs : List A) → map h (map f xs) ≡ map g xs
  map-same g h f same [] = refl
  map-same g h f same (a ∷ xs) =
      ap (λ c. c ∷ map h (map f xs)) (same a) ∙ ap (λ cs. g a ∷ cs) (map-same g h f same xs)

  -- The list holds the markets of the category in their order, and each with even prices and no volume,
  -- whatever the database, the registry and the pools hold.
  pub list_prediction_markets-IsUntouched :
      (qdb : Option (Client F)) (file : RegistryFile) (seeds : List Seed) (category : Option Str)
      (shown : List (PredictMarket F))
      → list_prediction_markets dec qdb file seeds category ≡ ok shown
      → (map (λ m. m.id) shown ≡ map (λ m. m.id) (in_category dec category (get_markets dec seeds)))
        × All IsUntouched shown
  unfolding list_prediction_markets enrich_markets enrich_market
  list_prediction_markets-IsUntouched qdb file seeds category shown h =
      let (registry, loaded, h') = >>=-ok (load_markets file) _ shown h in
      let listed = in_category dec category (get_markets dec seeds) in
      let f = enrich_market dec chain_of_request (volumes_from dec qdb) registry in
      (
        ap (map (λ m. m.id)) (sym (ok-injective h'))
            ∙ map-same (λ m. m.id) (λ m. m.id) f
                (enrich_market-id chain_of_request (volumes_from dec qdb) registry) listed,
        subst (All IsUntouched) (ok-injective h') (
            map-All IsBuilt IsUntouched f
              (λ m built.
                subst (λ c. IsUntouched (enrich_market dec c (volumes_from dec qdb) registry m))
                  (sym no_chain)
                  (subst (λ v. IsUntouched (enrich_market dec none v registry m))
                    (sym (volumes_from-none qdb))
                    (updates_of-IsUntouched (first_match m.market_address registry) m built)))
              listed
              (in_category-IsBuilt category (get_markets dec seeds) (get_markets-IsBuilt seeds))),
      )
