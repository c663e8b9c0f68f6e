-- ===== src/Ingest/Tests.antt =====
-- The ingest worker at concrete inputs.
use ax_server.Prelude.{◌≡◌, ◌≤◌, refl, Bool, true, false, Option, none, some, List, [], ◌∷◌, arith}
use ax_server.Prelude.Text.{str_dec}
use ax_server.Ingest.{Swap}
use ax_server.Ingest.Once.{count, poll_all, ingest_once}
use ax_server.Ingest.Backfill.{IngestTask, DayData, Round, start_ingest, run_ingest, backfill}
use ax_server.Ingest.Backfill.Runs.{polls_of, run_ingest-poll_all}
use ax_server.Prelude.Error.{ok}

abbrev swap_in : Swap
swap_in = record {
  id = 49 ∷ [];
  timestamp = 100;
  pair_id = [];
  symbol0 = 65 ∷ [];
  symbol1 = 66 ∷ [];
  amount0_in = 2;
  amount1_in = 0;
  amount0_out = 0;
  amount1_out = 6;
  amount_usd = 6;
}

abbrev swap_out : Swap
swap_out = record swap_in {
  id = 50 ∷ [];
  amount0_in = 0;
  amount1_in = 6;
  amount0_out = 2;
  amount1_out = 0;
}

abbrev polls : List (Option (List Swap) × Bool)
polls =
    (some (swap_in ∷ []), false)
    ∷ (some (swap_in ∷ []), true)
    ∷ (none, true)
    ∷ (some (swap_out ∷ swap_in ∷ []), true)
    ∷ []

ingest_once_example :
    count (49 ∷ []) (poll_all (record { last_swap_ts = 0; rows = [] }) polls).rows ≤ 1
unfolding str_dec
ingest_once_example = ingest_once (49 ∷ []) 100 0 polls (
  (((λ e. refl), tt), omega arith),
  ((((λ e. refl), tt), omega arith), (tt, ((((λ e. refl), ((λ e. refl), tt)), omega arith), tt))),
)

abbrev idle : IngestTask
idle = record {
  running = false;
  backfilled = false;
  worker = record { last_swap_ts = 0; rows = [] };
}

abbrev day : DayData
day = record { date = 5; reserve0 = 2; reserve1 = 6; daily_volume_usd = 9 }

abbrev first_round : Round
first_round = record {
  history = record {
    get_all_pairs = ok (record { id = 80 ∷ []; symbol0 = 65 ∷ []; symbol1 = 66 ∷ [] } ∷ []);
    get_pair_day_data = λ id. ok (day ∷ []);
    ingest_trades = λ trades. false;
  };
  swaps = some (swap_in ∷ []);
  written = true;
}

-- The first write of the backfill fails, and the second round would have taken it.
abbrev second_round : Round
second_round = record first_round {
  history = record first_round.history { ingest_trades = λ trades. true };
}

run_ingest-poll_all_example :
    (run_ingest (start_ingest idle) (first_round ∷ second_round ∷ [])).worker
    ≡ poll_all
        (record idle.worker { rows = backfill first_round.history [] })
        (polls_of (first_round ∷ second_round ∷ []))
run_ingest-poll_all_example = run_ingest-poll_all idle first_round (second_round ∷ []) refl
