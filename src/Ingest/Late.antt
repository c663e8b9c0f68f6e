-- ===== src/Ingest/Late.antt =====
-- What the worker misses, and the units of its prices.
use ax_server.Prelude.{
  ℕ, ◌≤◌, ◌<◌, ◌≡◌, refl, Bool, Option, none, some, List, [], ◌∷◌, arith, Bool-cases, inl, inr,
  lt→ltb, ◌∙◌,
}
use ax_server.Prelude.Text.{Str, is_empty}
use ax_server.Ingest.{Swap, TradeRow, trade_of, trades_of, Worker, new_swaps, poll_swaps}
use ax_server.Ingest.Once.{
  count, count-append, count-trades_of, listed-late, max-new_swaps, none_of_none, Answer, AllAnswer,
  poll_all,
}

poll_swaps-late :
    (id : Str) (at : ℕ) (w : Worker) (answer : Option (List Swap)) (written : Bool)
    → Answer id at answer
    → at ≤ w.last_swap_ts
    → (count id (poll_swaps w answer written).rows ≡ count id w.rows)
      × (at ≤ (poll_swaps w answer written).last_swap_ts)
unfolding poll_swaps
poll_swaps-late id at w none written a h = (refl, h)
poll_swaps-late id at w (some swaps) written a h =
    let fresh = new_swaps w.last_swap_ts swaps in
    elim (Bool-cases (is_empty (trades_of fresh))) [
      | inl e ↦ rw e (refl, h)
      | inr e ↦ elim (Bool-cases written) [
        | inr f ↦ rw (e, f) (refl, h)
        | inl f ↦
            let total = count-append id w.rows (trades_of fresh) in
            let few = count-trades_of id fresh in
            let gone = listed-late id at w.last_swap_ts swaps a.0 h in
            let up = max-new_swaps w.last_swap_ts swaps (none_of_none fresh e) in
            rw (e, f) (omega (arith, total, few, gone), omega (arith, h, up))
      ]
    ]

-- A swap whose time is at or before the high-water mark gains no row from any further polls, if each
-- answer has it at most once and with the same time: a swap of the same second as one that was
-- written, listed later, is lost.
pub poll_all-late :
    (id : Str) (at : ℕ) (w : Worker) (polls : List (Option (List Swap) × Bool))
    → AllAnswer id at polls
    → at ≤ w.last_swap_ts
    → count id (poll_all w polls).rows ≡ count id w.rows
unfolding poll_all
poll_all-late id at w [] a h = refl
poll_all-late id at w ((answer, written) ∷ polls) a h =
    let (same, mark) = poll_swaps-late id at w answer written a.0 h in
    poll_all-late id at (poll_swaps w answer written) polls a.1 mark ∙ same

-- The same rate of exchange is recorded as x / y when x of the first token go in for y of the
-- second, and as y / x when they come out for it.
pub trade_of-reciprocal :
    (s r : Swap) (x y : ℕ)
    → 0 < x
    → 0 < y
    → s.amount0_in ≡ x
    → s.amount1_out ≡ y
    → r.amount0_in ≡ 0
    → r.amount1_in ≡ y
    → r.amount0_out ≡ x
    → (t : TradeRow) × (u : TradeRow) × (trade_of s ≡ some t)
      × (trade_of r ≡ some u)
      × (t.price ≡ record { num = x; den = y })
      × (u.price ≡ record { num = y; den = x })
unfolding trade_of
trade_of-reciprocal s r x y hx hy s0 s1 r0 r1 r2 =
    rw (s0, s1, r0, r1, r2, lt→ltb 0 x hx, lt→ltb 0 y hy) (_, _, refl, refl, refl, refl)
