-- ===== src/Predict/Stats/Ranking.antt =====
-- Comprehensions that may raise, and the sorting of the leaderboard of app/api/v1/predict.py.
use ax_server.Prelude.{◌≡◌, List, [], ◌∷◌, inl, inr, true, false, Bool-cases}
use ax_server.Prelude.Text.{Str}
use ax_server.Prelude.Error.{Result, ok, >>=-ok, ok-injective}
use ax_server.Predict.Stats.{Floats, Trader, insert_trader, sort_traders}
use ax_server.History.{each}

module _ {A B : Type 0} (f : A → Result Str B) where
  pub each-cons :
      (a : A) (xs : List A) (ys : List B)
      → each f (a ∷ xs) ≡ ok ys
      → (b : B) × (bs : List B) × (f a ≡ ok b) × (each f xs ≡ ok bs) × (b ∷ bs ≡ ys)
  unfolding each
  each-cons a xs ys h =
      let (b, e1, h1) = >>=-ok (f a) _ ys h in
      let (bs, e2, h2) = >>=-ok (each f xs) _ ys h1 in (b, bs, e1, e2, ok-injective h2)

module _ {F : Type 0} (floats : Floats F) where
  -- No trader's volume is above that of the one before.
  abbrev pub IsBelow : Trader F → List (Trader F) → Type 0
  IsBelow t [] = Unit
  IsBelow t (u ∷ us) = floats.lt t.total_volume u.total_volume ≡ false

  abbrev pub IsRanked : List (Trader F) → Type 0
  IsRanked [] = Unit
  IsRanked (t ∷ ts) = IsBelow t ts × IsRanked ts

  insert_trader-IsBelow :
      (u t : Trader F) (us : List (Trader F))
      → floats.lt u.total_volume t.total_volume ≡ false
      → IsBelow u us
      → IsBelow u (insert_trader floats t us)
  unfolding insert_trader
  insert_trader-IsBelow u t [] h k = h
  insert_trader-IsBelow u t (v ∷ vs) h k =
      elim (Bool-cases (floats.lt t.total_volume v.total_volume)) [
        | inl e ↦ rw e k
        | inr e ↦ rw e h
      ]

  insert_trader-IsRanked :
      ((a b : F) → floats.lt a b ≡ true → floats.lt b a ≡ false)
      → (t : Trader F) (us : List (Trader F)) → IsRanked us
      → IsRanked (insert_trader floats t us)
  unfolding insert_trader
  insert_trader-IsRanked asym t [] h = (tt, tt)
  insert_trader-IsRanked asym t (u ∷ us) h =
      elim (Bool-cases (floats.lt t.total_volume u.total_volume)) [
        | inl e ↦ rw e (
          insert_trader-IsBelow u t us (asym t.total_volume u.total_volume e) h.0,
          insert_trader-IsRanked asym t us h.1,
        )
        | inr e ↦ rw e (e, h)
      ]

  pub sort_traders-IsRanked :
      ((a b : F) → floats.lt a b ≡ true → floats.lt b a ≡ false)
      → (ts : List (Trader F)) → IsRanked (sort_traders floats ts)
  unfolding sort_traders
  sort_traders-IsRanked asym [] = tt
  sort_traders-IsRanked asym (t ∷ ts) =
      insert_trader-IsRanked asym t (sort_traders floats ts) (sort_traders-IsRanked asym ts)
