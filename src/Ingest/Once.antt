-- ===== src/Ingest/Once.antt =====
-- The high-water mark: no swap is written twice, and a late one is never written.
use ax_server.Prelude.{
  leb, leb→le, ltb→lt, All-keep_if, ℕ, ◌+◌, ◌≤◌, ◌<◌, ◌≡◌, refl, Bool, true, false, Option, none,
  some, List, [], ◌∷◌, ◌++◌, arith, ltb, if◌then◌else◌, All, Bool-cases, inl, inr,
}
use ax_server.Prelude.Text.{Str, is_empty, str_eq}
use ax_server.Ingest.{
  Swap, TradeRow, trade_of, trades_of, max_timestamp, Worker, new_swaps, poll_swaps,
}

-- How many rows of a list are of a transaction
abbrev pub count : Str → List TradeRow → ℕ
count id [] = 0
count id (t ∷ ts) = (if str_eq t.tx_hash id then 1 else 0) + count id ts

-- How many swaps of an answer have an id
abbrev pub listed : Str → List Swap → ℕ
listed id [] = 0
listed id (s ∷ ss) = (if str_eq s.id id then 1 else 0) + listed id ss

-- Every swap with the id has the timestamp.
abbrev pub IsDated : Str → ℕ → List Swap → Type 0
IsDated id at = All (λ s. str_eq s.id id ≡ true → s.timestamp ≡ at)

pub count-append :
    (id : Str) (xs ys : List TradeRow) → count id (xs ++ ys) ≡ count id xs + count id ys
count-append id [] ys = omega arith
count-append id (x ∷ xs) ys = omega (arith, count-append id xs ys)

pub count-trades_of : (id : Str) (swaps : List Swap) → count id (trades_of swaps) ≤ listed id swaps
unfolding trades_of trade_of
count-trades_of id [] = omega arith
count-trades_of id (s ∷ swaps) = let ih = count-trades_of id swaps in ground (arith, ih)

listed-new_swaps :
    (id : Str) (mark : ℕ) (swaps : List Swap) → listed id (new_swaps mark swaps) ≤ listed id swaps
unfolding new_swaps
listed-new_swaps id mark [] = omega arith
listed-new_swaps id mark (s ∷ swaps) = let ih = listed-new_swaps id mark swaps in ground (arith, ih)

-- A swap at or before the mark is not new.
pub listed-late :
    (id : Str) (at mark : ℕ) (swaps : List Swap)
    → IsDated id at swaps
    → at ≤ mark
    → listed id (new_swaps mark swaps) ≡ 0
unfolding new_swaps
listed-late id at mark [] d h = refl
listed-late id at mark (s ∷ swaps) d h =
    let ih = listed-late id at mark swaps d.1 h in
    elim (Bool-cases (str_eq s.id id)) [
      | inl e ↦ let when = d.0 e in ground (arith, ih, when, h)
      | inr e ↦ ground (arith, ih, e)
    ]

-- The mark after a batch that has the swap is at least the swap's time.
mark-listed :
    (id : Str) (at : ℕ) (swaps : List Swap)
    → IsDated id at swaps
    → 1 ≤ listed id swaps
    → at ≤ max_timestamp swaps
unfolding max_timestamp
mark-listed id at [] d h = absurd (omega (arith, h))
mark-listed id at (s ∷ swaps) d h = elim (Bool-cases (str_eq s.id id)) [
  | inl e ↦ let when = d.0 e in omega (arith, when)
  | inr e ↦ let ih = mark-listed id at swaps d.1 (omega (arith, (rw e at h))) in omega (arith, ih)
]

pub max-new_swaps :
    (mark : ℕ) (swaps : List Swap)
    → is_empty (new_swaps mark swaps) ≡ false
    → mark < max_timestamp (new_swaps mark swaps)
unfolding new_swaps max_timestamp
max-new_swaps mark [] h = absurd (ground arith)
max-new_swaps mark (s ∷ swaps) h = elim (Bool-cases (ltb mark s.timestamp)) [
  | inl e ↦ rw e (omega (arith, ltb→lt mark s.timestamp e))
  | inr e ↦ rw e (max-new_swaps mark swaps (rw e at h))
]

pub none_of_none : (swaps : List Swap) → is_empty (trades_of swaps) ≡ false → is_empty swaps ≡ false
unfolding trades_of
none_of_none [] h = h
none_of_none (s ∷ swaps) h = refl

-- What holds between polls of a swap and its time
record Held (id : Str) (at : ℕ) (w : Worker) : Type 0 where
  at_most_once : count id w.rows ≤ 1
  marked : 1 ≤ count id w.rows → at ≤ w.last_swap_ts

after_write :
    (id : Str) (at mark : ℕ) (rows : List TradeRow) (swaps : List Swap)
    → IsDated id at swaps
    → listed id swaps ≤ 1
    → is_empty (trades_of (new_swaps mark swaps)) ≡ false
    → Held id at (record { last_swap_ts = mark; rows = rows })
    → let fresh = new_swaps mark swaps in
      Held id at (record { last_swap_ts = max_timestamp fresh; rows = rows ++ trades_of fresh })
after_write id at mark rows swaps d one ne v =
    let fresh = new_swaps mark swaps in
    let total = count-append id rows (trades_of fresh) in
    let some_listed = count-trades_of id fresh in
    let few = listed-new_swaps id mark swaps in
    let up = max-new_swaps mark swaps (none_of_none fresh ne) in
    let dated : IsDated id at fresh =
      unfold new_swaps in All-keep_if (λ s. str_eq s.id id ≡ true → s.timestamp ≡ at) _ swaps d in
    elim (Bool-cases (leb 1 (count id rows))) [
      | inl e ↦
          let early : at ≤ mark = v.marked (leb→le 1 (count id rows) e) in
          let gone = listed-late id at mark swaps d early in
          record {
            at_most_once = omega (arith, total, some_listed, gone, v.at_most_once);
            marked = λ k. omega (arith, early, up);
          }
      | inr e ↦
          let zero_rows : count id rows ≡ 0 = ground arith in
          record {
            at_most_once = omega (arith, total, some_listed, few, one, zero_rows);
            marked = λ k.
                mark-listed id at fresh dated (omega (arith, total, some_listed, zero_rows, k));
          }
    ]

-- The answer of a query has a swap at most once, always with its time.
abbrev pub Answer : Str → ℕ → Option (List Swap) → Type 0
Answer id at none = Unit
Answer id at (some swaps) = IsDated id at swaps × (listed id swaps ≤ 1)

poll_swaps-Held :
    (id : Str) (at : ℕ) (w : Worker) (answer : Option (List Swap)) (written : Bool)
    → Answer id at answer
    → Held id at w
    → Held id at (poll_swaps w answer written)
unfolding poll_swaps
poll_swaps-Held id at w none written a v = v
poll_swaps-Held id at w (some swaps) written a v =
    elim (Bool-cases (is_empty (trades_of (new_swaps w.last_swap_ts swaps)))) [
      | inl e ↦ rw e v
      | inr e ↦ elim (Bool-cases written) [
        | inl f ↦ rw (e, f) (after_write id at w.last_swap_ts w.rows swaps a.0 a.1 e v)
        | inr f ↦ rw (e, f) v
      ]
    ]

-- A sequence of polls, each with the answer of its query and whether its write succeeded
unfoldable pub poll_all : Worker → List (Option (List Swap) × Bool) → Worker
poll_all w [] = w
poll_all w ((answer, written) ∷ polls) = poll_all (poll_swaps w answer written) polls

abbrev pub AllAnswer : Str → ℕ → List (Option (List Swap) × Bool) → Type 0
AllAnswer id at [] = Unit
AllAnswer id at ((answer, written) ∷ polls) = Answer id at answer × AllAnswer id at polls

poll_all-Held :
    (id : Str) (at : ℕ) (w : Worker) (polls : List (Option (List Swap) × Bool))
    → AllAnswer id at polls
    → Held id at w
    → Held id at (poll_all w polls)
unfolding poll_all
poll_all-Held id at w [] a v = v
poll_all-Held id at w ((answer, written) ∷ polls) a v =
    poll_all-Held id at (poll_swaps w answer written) polls a.1
      (poll_swaps-Held id at w answer written a.0 v)

-- However the answers of the polls overlap and whichever writes fail, a worker that starts without
-- rows never writes a swap twice, if each answer has the swap at most once and with the same time.
pub ingest_once :
    (id : Str) (at mark : ℕ) (polls : List (Option (List Swap) × Bool))
    → AllAnswer id at polls
    → count id (poll_all (record { last_swap_ts = mark; rows = [] }) polls).rows ≤ 1
ingest_once id at mark polls a =
    (poll_all-Held id at (record { last_swap_ts = mark; rows = [] }) polls a
      (record { at_most_once = omega arith; marked = λ k. absurd (omega (arith, k)) })).at_most_once
