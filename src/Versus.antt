-- ===== src/Versus.antt =====
-- The versus endpoints: app/api/v1/versus.py. The Firestore database is a parameter whose queries
-- return or raise; floats and their arithmetic are an abstract type.
pub mod Ranks
mod Tests
use ax_server.Prelude.{ℕ, ◌+◌, Option, none, some, List, [], ◌∷◌, ◌++◌, if◌then◌else◌, ltb, length}
use ax_server.Prelude.Text.{Str, text, str_eq}
use ax_server.Prelude.Text.Search.{decimal}
use ax_server.Prelude.Error.{Result, ok, err, ◌>>=◌, ◌>>◌, raise_if, or_raise}
use ax_server.Comments.{HttpError, http_error}
use mathlib.Core.Option

-- What a handler raises: an `HTTPException`, or an exception of the database
pub data VersusFailure : Type 0 where
  http : HttpError → VersusFailure
  database : Str → VersusFailure

-- A document with the fields that are read; `none` is a missing key.
pub record Doc (F : Type 0) : Type 0 where
  pub id : Str
  pub athlete_name : Option Str
  pub team : Option Str
  pub elo : Option F
  pub wins : Option ℕ
  pub losses : Option ℕ

-- The documents of a collection with the highest ratings, best first, and one document
pub record Firestore (F : Type 0) : Type 0 where
  pub top : Str → ℕ → Result VersusFailure (List (Doc F))
  pub document : Str → Str → Result VersusFailure (Option (Doc F))

-- The floats: 1500.0, 0.0, and `round(wins / total * 100, 1)`
pub record Percents (F : Type 0) : Type 0 where
  pub default_elo : F
  pub zero : F
  pub percent : ℕ → ℕ → F

-- `class VersusAthlete`
pub record VersusAthlete (F : Type 0) : Type 0 where
  pub athlete_id : Str
  pub name : Str
  pub team : Str
  pub category : Str
  pub elo : F
  pub wins : ℕ
  pub losses : ℕ
  pub score : Str
  pub win_pct : F
  pub rank : Option ℕ

pub record VersusMatchup (F : Type 0) : Type 0 where
  pub athlete_a : VersusAthlete F
  pub athlete_b : VersusAthlete F

-- `_COLLECTIONS.get(category, _COLLECTIONS["athletes"])`
unfoldable pub collection_of : Str → Str
collection_of category =
    if str_eq category (text "rappers")
    then text "rapper_elo_rankings"
    else if str_eq category (text "finance")
    then text "finance_bro_elo_rankings"
    else text "athlete_elo_rankings"

abbrev pub firestore_unavailable : VersusFailure
firestore_unavailable = http (http_error 503 (text "Firestore unavailable"))

abbrev pub not_found : VersusFailure
not_found = http (http_error 404 (text "Athlete not found"))

module _ {F : Type 0} (floats : Percents F) where
  -- The answer's row of a document
  unfoldable pub athlete_of : Str → Option ℕ → Doc F → VersusAthlete F
  athlete_of category rank doc =
      let wins = Option.get_or doc.wins 0 in
      let losses = Option.get_or doc.losses 0 in
      record {
        athlete_id = doc.id;
        name = Option.get_or doc.athlete_name doc.id;
        team = Option.get_or doc.team [];
        category = category;
        elo = Option.get_or doc.elo floats.default_elo;
        wins = wins;
        losses = losses;
        score = decimal wins ++ text "-" ++ decimal losses;
        win_pct =
            if ltb 0 (wins + losses) then floats.percent wins (wins + losses) else floats.zero;
        rank = rank;
      }

  -- The loop of `get_leaderboard`, from a rank on
  unfoldable pub ranked : Str → ℕ → List (Doc F) → List (VersusAthlete F)
  ranked category rank [] = []
  ranked category rank (doc ∷ docs) =
      athlete_of category (some rank) doc ∷ ranked category (rank + 1) docs

  -- `get_leaderboard`
  unfoldable pub get_leaderboard :
      Option (Firestore F) → Str → ℕ → Result VersusFailure (List (VersusAthlete F))
  get_leaderboard none category limit = ok []
  get_leaderboard (some db) category limit = do
    docs ← db.top (collection_of category) limit
    ok (ranked category 1 docs)

  -- `get_athlete`
  unfoldable pub get_athlete :
      Option (Firestore F) → Str → Str → Result VersusFailure (VersusAthlete F)
  get_athlete none athlete_id category = err firestore_unavailable
  get_athlete (some db) athlete_id category = do
    found ← db.document (collection_of category) athlete_id
    doc ← or_raise found not_found
    ok (athlete_of category none doc)

  -- `get_matchup`, with the choice that `random.sample` makes
  unfoldable pub get_matchup :
      Option (Firestore F)
      → (List (Doc F) → Doc F × Doc F)
      → Str
      → Result VersusFailure (VersusMatchup F)
  get_matchup none sample category = err firestore_unavailable
  get_matchup (some db) sample category = do
    docs ← db.top (collection_of category) 20
    raise_if (ltb (length docs) 2) (http (http_error 404 (text "Not enough athletes")))
    let (a_doc, b_doc) = sample docs
    ok (record {
      athlete_a = athlete_of category none a_doc;
      athlete_b = athlete_of category none b_doc;
    })
