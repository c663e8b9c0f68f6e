-- ===== src/Comments.antt =====
-- Comments on markets: `post_comment` and `delete_comment` of app/api/v1/comments.py. The files
-- are a dictionary from market ids, in the order in which the directory lists them; the caller has
-- passed the authentication.
pub mod Ownership
pub mod Listing
mod Tests
use ax_server.Prelude.{ℕ, Option, none, some, List, [], ◌∷◌, ◌++◌, if◌then◌else◌, ℕ_discrete, not}
use ax_server.Prelude.Dict.{Dict}
use ax_server.Prelude.Dict
use ax_server.Prelude.Text.{Str, text, lower, strip, str_eq, str_dec}
use ax_server.Prelude.Error.{Result, ok, err}
use mathlib.Core.Option

-- `Comment`, with its time as a number
pub record Comment : Type 0 where
  pub id : Str
  pub market_id : ℕ
  pub wallet : Str
  pub body : Str
  pub timestamp : ℕ

abbrev pub Files : Type 0
Files = Dict ℕ (List Comment)

-- `_load`
unfoldable pub load : Files → ℕ → List Comment
load files market_id = Option.get_or (Dict.lookup ℕ_discrete market_id files) []

-- `post_comment`, for the id that `uuid4` gave
unfoldable pub post_comment : Files → ℕ → Str → Str → Str → ℕ → Files × Comment
post_comment files market_id wallet body id now =
    let comment : Comment = record {
      id = id;
      market_id = market_id;
      wallet = wallet;
      body = strip body;
      timestamp = now;
    } in
    (Dict.insert ℕ_discrete market_id (load files market_id ++ comment ∷ []) files, comment)

-- `HTTPException`
pub data HttpError : Type 0 where
  http_error : ℕ → Str → HttpError

-- The search of one file: `none` where the id is not in it, the exception where the comment is
-- another wallet's, or the comments without it
unfoldable pub delete_in : Str → Str → List Comment → Option (Result HttpError (List Comment))
delete_in id wallet [] = none
delete_in id wallet (c ∷ cs) =
    let rest = delete_in id wallet cs in
    if str_eq c.id id
    then (if not (str_eq (lower c.wallet) (lower wallet))
        then some (err (http_error 403 (text "Not your comment")))
        else some (ok cs))
    else elim rest [
      | none ↦ none
      | some (err e) ↦ some (err e)
      | some (ok kept) ↦ some (ok (c ∷ kept))
    ]

-- `delete_comment`: the files afterwards, and the answer
unfoldable pub delete_comment : Files → Str → Str → Files × Result HttpError (Unit {0})
delete_comment [] id wallet = ([], err (http_error 404 (text "Comment not found")))
delete_comment ((m, cs) ∷ files) id wallet =
    let (files', answer) = delete_comment files id wallet in
    elim (delete_in id wallet cs) [
      | none ↦ ((m, cs) ∷ files', answer)
      | some (err e) ↦ ((m, cs) ∷ files, err e)
      | some (ok kept) ↦ ((m, kept) ∷ files, ok tt)
    ]
