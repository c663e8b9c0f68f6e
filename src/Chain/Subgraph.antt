-- ===== src/Chain/Subgraph.antt =====
-- The client of the subgraph: app/chain/subgraph.py. The transport is a parameter that gives the outcome
-- of each attempt; what a query asks for is not read.
pub mod Retries
pub mod Pages
pub mod Queries
use ax_server.Prelude.{
  ℕ, zero, suc, ◌+◌, ◌-◌, ◌*◌, ◌^◌, Bool, Option, none, some, List, [], ◌∷◌, ◌++◌, if◌then◌else◌,
  ltb, length,
}
use ax_server.Prelude.Text.{Str, text, lower}
use ax_server.Prelude.Text.Search.{decimal}
use ax_server.Prelude.Error.{Result, ok, err, ◌>>=◌}

-- The outcome of one attempt: the answer's data, errors in the answer, a failure of the transport or a
-- bad status, or any other exception
pub data Attempt (D : Type 0) : Type 0 where
  answered : D → Attempt D
  graphql_errors : Str → Attempt D
  transient : Str → Attempt D
  unexpected : Str → Attempt D

-- The result, the number of requests, and the seconds slept
pub record Executed (D : Type 0) : Type 0 where
  pub result : Result Str D
  pub requests : ℕ
  pub slept : ℕ

-- `_MAX_RETRIES` and `_BASE_BACKOFF_S`
abbrev pub default_retries : ℕ
default_retries = 3

abbrev pub base_backoff : ℕ
base_backoff = 1

abbrev after_attempt : {D : Type 0} → ℕ → Executed D → Executed D
after_attempt seconds e = record {
  result = e.result;
  requests = e.requests + 1;
  slept = seconds + e.slept;
}

abbrev settled : {D : Type 0} → Result Str D → Executed D
settled result = record { result = result; requests = 1; slept = 0 }

module _ {D : Type 0} (max_retries : ℕ) (post : ℕ → Attempt D) where
  unfoldable pub exhausted : Str → Result Str D
  exhausted last_exc =
      err (
        text "Subgraph query failed after " ++ decimal max_retries ++ text " retries: " ++ last_exc)

  -- The loop of `_execute` with some attempts left
  unfoldable pub attempts : ℕ → ℕ → Str → Executed D
  attempts zero attempt last_exc = record { result = exhausted last_exc; requests = 0; slept = 0 }
  attempts (suc left) attempt last_exc = elim (post attempt) [
    | answered d ↦ settled (ok d)
    | graphql_errors e ↦ settled (err (text "GraphQL errors: " ++ e))
    | transient e ↦ after_attempt (base_backoff * 2 ^ (attempt - 1)) (attempts left (attempt + 1) e)
    | unexpected e ↦ settled (exhausted e)
  ]

  -- `_execute`
  unfoldable pub execute : Executed D
  execute = attempts max_retries 1 (text "None")

-- `get_user_net_inflow`: the user's field, zero where either is missing; the outer none is an answer
-- without a user.
unfoldable pub net_inflow : {F : Type 0} → F → (Str → Option F) → Option (Option Str) → Result Str F
net_inflow zero_float parse none = ok zero_float
net_inflow zero_float parse (some none) = ok zero_float
net_inflow zero_float parse (some (some s)) = elim (parse s) [
  | none ↦ err (text "could not convert string to float")
  | some v ↦ ok v
]

-- A pair, by its id
pub record Pair : Type 0 where
  pub id : Str
  pub reserve0 : Str
  pub reserve1 : Str

-- `batch_size`
abbrev pub batch_size : ℕ
batch_size = 1000

-- `batch[-1]["id"]`, where there is a batch
unfoldable pub last_id : Str → List Pair → Str
last_id id [] = id
last_id id (p ∷ ps) = last_id p.id ps

-- The loop of `get_all_pairs`, over the query for the pairs after an id; without fuel it has no result.
unfoldable pub get_pages :
    (Str → ℕ → Result Str (List Pair)) → ℕ → Str → List Pair → Option (Result Str (List Pair))
get_pages query zero last all_pairs = none
get_pages query (suc fuel) last all_pairs = elim (query last batch_size) [
  | err e ↦ some (err e)
  | ok [] ↦ some (ok all_pairs)
  | ok (p ∷ ps) ↦
      let batch = p ∷ ps in
      let rest = get_pages query fuel (last_id last batch) (all_pairs ++ batch) in
      if ltb (length batch) batch_size then some (ok (all_pairs ++ batch)) else rest
]

-- `get_all_pairs`
unfoldable pub get_all_pairs :
    (Str → ℕ → Result Str (List Pair)) → ℕ → Option (Result Str (List Pair))
get_all_pairs query fuel = get_pages query fuel [] []
