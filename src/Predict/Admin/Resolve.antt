-- ===== src/Predict/Admin/Resolve.antt =====
-- What a resolution of a market gives and records.
use ax_server.Prelude.{ℕ, ◌≡◌, some}
use ax_server.Prelude.Text.{Str, text, upper}
use ax_server.Prelude.Error.{ok}
use ax_server.Auth.Jwt.{Jwt}
use ax_server.Predict.Registry.{RegistryFile, update_market_status, settlement_price}
use ax_server.Predict.Admin.{Contracts, TxResponse, build_tx}

-- What the answer of a resolution says
pub record Resolved (contracts : Contracts) (addr outcome : Str) (r : TxResponse) : Type 0 where
  pub price : ℕ
  pub calldata : Str
  pub priced : settlement_price outcome ≡ some price
  pub encoded : contracts.resolve_calldata addr price ≡ ok calldata
  pub transaction_is : r.transaction ≡ build_tx addr calldata

abbrev updated : RegistryFile → Str → Str → Str → RegistryFile
updated file addr outcome resolved_at =
    (update_market_status file addr (some (text "resolved")) (some (upper outcome))
      (some resolved_at)).0
