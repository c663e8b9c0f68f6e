-- ===== src/Versus/Ranks.antt =====
-- The leaderboard against the single athletes: app/api/v1/versus.py.
use ax_server.Prelude.{ℕ, ◌+◌, ◌≡◌, refl, none, some, List, [], ◌∷◌, arith, inl, inr}
use ax_server.Prelude.Text.{Str}
use ax_server.Prelude.Error.{ok, Result-cases}
use ax_server.Versus.{
  Firestore, Doc, Percents, VersusAthlete, collection_of, athlete_of, ranked, get_leaderboard,
  get_athlete,
}
use mathlib.Core.Path.{subst}

module _ {F : Type 0} (floats : Percents F) (db : Firestore F) (category : Str) where
  -- Each document of a list is stored under its id.
  abbrev pub Stored : List (Doc F) → Type 0
  Stored [] = Unit
  Stored (doc ∷ docs) = (db.document (collection_of category) doc.id ≡ ok (some doc)) × Stored docs

  -- The rows have consecutive ranks, and each is what `get_athlete` answers for its id, but for the
  -- rank.
  abbrev pub IsRanked : ℕ → List (VersusAthlete F) → Type 0
  IsRanked rank [] = Unit
  IsRanked rank (row ∷ rows) =
      (row.rank ≡ some rank)
      × (get_athlete floats (some db) row.athlete_id category ≡ ok (record row { rank = none }))
      × IsRanked (rank + 1) rows

  ranked-IsRanked :
      (rank : ℕ) (docs : List (Doc F))
      → Stored docs
      → IsRanked rank (ranked floats category rank docs)
  unfolding ranked athlete_of get_athlete
  ranked-IsRanked rank [] h = tt
  ranked-IsRanked rank (doc ∷ docs) h = (refl, rw h.0 refl, ranked-IsRanked (rank + 1) docs h.1)

  -- When each document that a query returns is stored under its id, a leaderboard ranks its athletes
  -- from one on without a gap, and each row is what the endpoint of the single athlete answers for
  -- the same category, but for the rank.
  pub get_leaderboard-IsRanked :
      (limit : ℕ) (rows : List (VersusAthlete F))
      → ((docs : List (Doc F)) → db.top (collection_of category) limit ≡ ok docs → Stored docs)
      → get_leaderboard floats (some db) category limit ≡ ok rows
      → IsRanked 1 rows
  unfolding get_leaderboard
  get_leaderboard-IsRanked limit rows stored h =
      elim (Result-cases (db.top (collection_of category) limit)) [
        | inr (e, bad) ↦ absurd (ground (arith))
        | inl (docs, good) ↦
            let same : ranked floats category 1 docs ≡ rows = ground arith in
            subst (IsRanked 1) same (ranked-IsRanked 1 docs (stored docs good))
      ]
