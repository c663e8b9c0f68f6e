-- ===== src/Versus/Tests.antt =====
-- The versus endpoints at concrete inputs.
use ax_server.Prelude.{ℕ, ◌≡◌, ◌/◌, ◌*◌, refl, none, some, List, [], ◌∷◌, if◌then◌else◌}
use ax_server.Prelude.Text.{text, str_eq, str_dec}
use ax_server.Prelude.Error.{ok, ok-injective}
use mathlib.Core.Path.{subst}
use ax_server.Versus.{Doc, Firestore, Percents, get_leaderboard, collection_of, ranked}
use ax_server.Versus.Ranks.{IsRanked, Stored, get_leaderboard-IsRanked}

abbrev floats : Percents ℕ
floats = record { default_elo = 1500; zero = 0; percent = λ w t. w * 100 / t }

abbrev first : Doc ℕ
first = record {
  id = text "a";
  athlete_name = none;
  team = none;
  elo = some 1700;
  wins = some 3;
  losses = some 1;
}

abbrev second : Doc ℕ
second = record {
  id = text "b";
  athlete_name = none;
  team = none;
  elo = none;
  wins = none;
  losses = none;
}

abbrev db : Firestore ℕ
db = record {
  top = λ c n. ok (first ∷ second ∷ []);
  document = λ c id. ok (if str_eq id (text "a") then some first else some second);
}

found_second : db.document (collection_of (text "rappers")) second.id ≡ ok (some second)
unfolding text str_dec
found_second = refl

found_first : db.document (collection_of (text "rappers")) first.id ≡ ok (some first)
unfolding text str_dec
found_first = refl

docs-Stored :
    (docs : List (Doc ℕ))
    → db.top (collection_of (text "rappers")) 25 ≡ ok docs
    → Stored floats db (text "rappers") docs
docs-Stored docs h =
    subst (Stored floats db (text "rappers")) (ok-injective h) (found_first, (found_second, tt))

get_leaderboard-IsRanked_example :
    IsRanked floats db (text "rappers") 1 (ranked floats (text "rappers") 1 (first ∷ second ∷ []))
unfolding get_leaderboard
get_leaderboard-IsRanked_example =
    get_leaderboard-IsRanked floats db (text "rappers") 25
      (ranked floats (text "rappers") 1 (first ∷ second ∷ [])) docs-Stored refl
