-- ===== src/Chain/Tests.antt =====
-- The quote at a concrete pool, and the client of the subgraph.
use ax_server.Prelude.{
  ◌+◌, ◌-◌, ◌*◌, ◌≤◌, ◌<◌, arith, ℕ, ◌^◌, ◌≡◌, refl, Bool, List, [], ◌∷◌, some, take, keep_if,
  length, ltb, if◌then◌else◌,
}
use ax_server.Prelude.Text.{Str, text}
use ax_server.Prelude.Error.{Result, ok}
use ax_server.Chain.Subgraph.{Pair, Attempt, transient, answered, execute, attempts, get_all_pairs}
use ax_server.Chain.Subgraph.Pages.{Answers, get_all_pairs_complete}
use ax_server.Chain.Subgraph.Retries.{execute-bounds}
use ax_server.Chain.Amm.{get_amount_out, get_amount_out-bounds}

get_amount_out-bounds_example :
    (get_amount_out 1000 10_000 20_000 < 20_000)
    × (10_000 * 20_000 ≤ (10_000 + 1000) * (20_000 - get_amount_out 1000 10_000 20_000))
get_amount_out-bounds_example = get_amount_out-bounds 1000 10_000 20_000 (omega arith) (omega arith)

-- A subgraph with two pairs, whose ids are ordered by their length
abbrev earlier : Str → Str → Bool
earlier a b = ltb (length a) (length b)

abbrev pair : Str → Pair
pair id = record { id = id; reserve0 = []; reserve1 = [] }

abbrev pairs : List Pair
pairs = pair (1 ∷ []) ∷ pair (1 ∷ 2 ∷ []) ∷ []

abbrev query : Str → ℕ → Result Str (List Pair)
query last n = ok (take n (keep_if (λ p. earlier last p.id) pairs))

server : Answers earlier pairs query
server = record {
  asymmetric = λ a b h. ground arith;
  ascending = ((refl, tt), (tt, tt));
  nonempty = (refl, (refl, tt));
  pages = λ last n. refl;
}

get_all_pairs_complete_example : get_all_pairs query 3 ≡ some (ok pairs)
get_all_pairs_complete_example = get_all_pairs_complete earlier pairs query server 3 (omega arith)

-- A node that fails twice and then answers
abbrev post : ℕ → Attempt ℕ
post attempt = if ltb attempt 3 then transient (text "timeout") else answered 7

execute-bounds_example : ((execute 3 post).requests ≤ 3) × ((execute 3 post).slept < 2 ^ 3)
execute-bounds_example = execute-bounds 3 post

seventh : (execute 3 post).result ≡ ok 7
unfolding execute attempts
seventh = refl
