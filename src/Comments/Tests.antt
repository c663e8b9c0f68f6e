-- ===== src/Comments/Tests.antt =====
-- Comments at concrete inputs.
use ax_server.Prelude.{◌≡◌, ◌⊎◌, suc, not, [], ◌∷◌}
use ax_server.Prelude.Error.{ok, err}
use mathlib.Core.List.{Perm}
use ax_server.Prelude.{ℕ, List, take, drop}
use ax_server.Prelude.Int.{pos}
use ax_server.Comments.Listing.{list_comments, list_comments-pages, IsNewestFirst}
use ax_server.Comments.{load, Comment, Files, HttpError, delete_comment}
use ax_server.Comments.Ownership.{in_all, of_caller, delete_comment-own}

abbrev comment : Comment
comment = record { id = 49 ∷ []; market_id = 1; wallet = 65 ∷ []; body = []; timestamp = 5 }

abbrev files : Files
files = (1, comment ∷ record comment { id = 50 ∷ []; wallet = 66 ∷ [] } ∷ []) ∷ []

delete_comment-own_example :
    let r = delete_comment files (49 ∷ []) (97 ∷ []) in
    ((e : HttpError) × (r ≡ (files, err e)))
    ⊎ ((r.1 ≡ ok tt)
        × (in_all (of_caller (97 ∷ [])) files ≡ suc (in_all (of_caller (97 ∷ [])) r.0))
        × (in_all (λ c. not (of_caller (97 ∷ []) c)) files
            ≡ in_all (λ c. not (of_caller (97 ∷ []) c)) r.0))
delete_comment-own_example = delete_comment-own files (49 ∷ []) (97 ∷ [])

list_comments-pages_example :
    (sorted : List Comment) × Perm sorted (load files 1)
    × IsNewestFirst sorted
    × ((limit offset : ℕ)
        → list_comments files 1 (pos limit) (pos offset) ≡ take limit (drop offset sorted))
list_comments-pages_example = list_comments-pages files 1
