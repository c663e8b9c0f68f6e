-- ===== src/Portfolio/Positions.antt =====
-- What the positions of app/api/v1/portfolio.py list.
use ax_server.Prelude.{
  ℕ, ◌≡◌, refl, ap, List, [], ◌∷◌, map, inl, inr, Bool-cases, if◌then◌else◌, ◌==◌,
}
use ax_server.Prelude.Text.{Str}
use ax_server.Prelude.Text.Search.{decimal}
use ax_server.Prelude.Error.{Result, ok, err, ◌>>=◌, Result-cases}
use ax_server.Portfolio.{
  Reads, Position, PositionsResponse, read_erc20_balance, read_position, readable_positions,
  validate_wallet, get_wallet_positions, known_ids,
}

module _ (reads : Reads) where
  -- The wallet's balance of a market's token
  unfoldable pub balance_at : Str → ℕ → Result Str ℕ
  balance_at wallet mid = do
    address ← reads.synth_address mid
    synth_address ← reads.checksum address
    read_erc20_balance reads synth_address wallet

  -- The markets, in their order, whose balance can be read and is not zero, with that balance
  unfoldable pub holdings : Str → List ℕ → List (ℕ × Str)
  holdings wallet [] = []
  holdings wallet (mid ∷ mids) =
      let rest = holdings wallet mids in
      elim (balance_at wallet mid) [
        | err e ↦ rest
        | ok balance ↦ if balance == 0 then rest else (mid, decimal balance) ∷ rest
      ]

  abbrev pub entry : Position → ℕ × Str
  entry p = (p.market_id, p.balance)

  readable_positions-holdings :
      (wallet : Str) (mids : List ℕ)
      → map entry (readable_positions reads wallet mids) ≡ holdings wallet mids
  unfolding readable_positions holdings read_position balance_at
  readable_positions-holdings wallet [] = refl
  readable_positions-holdings wallet (mid ∷ mids) =
      let ih = readable_positions-holdings wallet mids in
      elim (Result-cases (reads.synth_address mid)) [
        | inr (x, a) ↦ rw (a, readable_positions, holdings, read_position, balance_at) ih
        | inl (address, a) ↦ elim (Result-cases (reads.checksum address)) [
          | inr (x, c) ↦ rw (a, c, readable_positions, holdings, read_position, balance_at) ih
          | inl (token, c) ↦ elim (Result-cases (read_erc20_balance reads token wallet)) [
            | inr (x, b) ↦ rw (a, c, b, readable_positions, holdings, read_position, balance_at) ih
            | inl (balance, b) ↦ elim (Bool-cases (balance == 0)) [
              | inl z ↦ rw (a, c, b, z, readable_positions, holdings, read_position, balance_at) ih
              | inr z ↦
                  rw (a, c, b, z, readable_positions, holdings, read_position, balance_at)
                    (ap (λ r. (mid, decimal balance) ∷ r) ih)
            ]
          ]
        ]
      ]

  -- For a valid wallet the positions are always answered: they are the known markets, in order, whose
  -- balance can be read and is not zero, each with that balance.
  pub get_wallet_positions-holdings :
      (wallet checked : Str)
      → validate_wallet reads.checksum wallet ≡ ok checked
      → (r : PositionsResponse) × (get_wallet_positions reads wallet ≡ ok r)
        × (map entry r.positions ≡ holdings checked known_ids)
  unfolding get_wallet_positions
  get_wallet_positions-holdings wallet checked h = (
    record { wallet = checked; positions = readable_positions reads checked known_ids },
    rw (h, get_wallet_positions) refl,
    readable_positions-holdings checked known_ids,
  )
