-- ===== src/Ingest/Backfill/Runs.antt =====
-- The worker's loop against its two parts, and the value of a backfilled day.
use ax_server.Prelude.{
  ℕ, ◌*◌, ◌≤◌, ◌≡◌, refl, Bool, true, false, Option, List, [], ◌∷◌, arith, ltb, leb, Bool-cases,
  inl, inr,
}
use native.Mathlib.Nat.{mul-le-mul_left, mul_assoc}
use ax_server.Ingest.{Swap, Worker, poll_swaps}
use ax_server.Ingest.Once.{poll_all}
use ax_server.Ingest.Backfill.{
  DayData, day_price, day_amount, IngestTask, Round, backfill, start_ingest, ensure_backfilled,
  ingest_round, run_ingest,
}

abbrev pub polls_of : List Round → List (Option (List Swap) × Bool)
polls_of [] = []
polls_of (r ∷ rounds) = (r.swaps, r.written) ∷ polls_of rounds

run_ingest-later :
    (w : Worker) (rounds : List Round)
    → (run_ingest (record { running = true; backfilled = true; worker = w }) rounds).worker
      ≡ poll_all w (polls_of rounds)
unfolding run_ingest ingest_round ensure_backfilled poll_all
run_ingest-later w [] = refl
run_ingest-later w (r ∷ rounds) = run_ingest-later (poll_swaps w r.swaps r.written) rounds

-- After its start a worker that has not backfilled does so in the first round and never again,
-- whatever that backfill came to: the rest of a run is the polls alone.
pub run_ingest-poll_all :
    (t : IngestTask) (r : Round) (rounds : List Round)
    → t.backfilled ≡ false
    → (run_ingest (start_ingest t) (r ∷ rounds)).worker
      ≡ poll_all
          (record t.worker { rows = backfill r.history t.worker.rows })
          (polls_of (r ∷ rounds))
unfolding run_ingest ingest_round ensure_backfilled start_ingest poll_all
run_ingest-poll_all t r rounds h = rw h (
    run_ingest-later
      (poll_swaps (record t.worker { rows = backfill r.history t.worker.rows }) r.swaps r.written)
      rounds)

value_exact : (v x y : ℕ) → v * x * y ≡ v * (y * x)
value_exact v x y = grind arith

value_below : (v x y : ℕ) → 1000 * y ≤ x → v * 1000 * y ≤ v * (1 * x)
value_below v x y h = omega (arith, mul-le-mul_left v h, mul_assoc v 1000 y, value_exact v 1 x)

-- The value of a backfilled day, its amount times its price, is at most the day's volume, and is the
-- volume where the price is a thousandth or more.
pub day_amount-value :
    (dd : DayData)
    → ((day_amount dd).num * (day_price dd).num
        ≤ dd.daily_volume_usd * ((day_amount dd).den * (day_price dd).den))
      × (ltb 0 dd.reserve0 ≡ true
          → leb dd.reserve0 (1000 * dd.reserve1) ≡ true
          → (day_amount dd).num * (day_price dd).num
            ≡ dd.daily_volume_usd * ((day_amount dd).den * (day_price dd).den))
unfolding day_price day_amount
day_amount-value dd = elim (Bool-cases (ltb 0 dd.reserve0)) [
  | inr none_of ↦ rw none_of (omega arith, λ p q. absurd (ground arith))
  | inl some_of ↦ elim (Bool-cases (ltb 0 dd.reserve1)) [
    | inr e ↦ rw (some_of, e) (grind arith, λ p q. absurd (ground arith))
    | inl e ↦ elim (Bool-cases (leb dd.reserve0 (1000 * dd.reserve1))) [
      | inl f ↦
          let same = value_exact dd.daily_volume_usd dd.reserve0 dd.reserve1 in
          rw (some_of, e, f) (omega (arith, same), λ p q. same)
      | inr f ↦
          rw (some_of, e, f)
            (
              value_below dd.daily_volume_usd dd.reserve0 dd.reserve1 (ground arith),
              λ p q. absurd (ground arith),
            )
    ]
  ]
]
