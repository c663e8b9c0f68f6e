-- ===== src/Chain.antt =====
-- The access to the chain: the address functions of web3, a parameter, that app/api/v1/auth.py
-- calls, and the quote of app/chain/uniswap_v2.py.
pub mod Amm
pub mod Synthetix
pub mod Eip7412
pub mod Subgraph
pub mod Uniswap
mod Tests
use ax_server.Prelude.{Bool}
use ax_server.Prelude.Text.{Str}

-- `Web3.is_address` and `Web3.to_checksum_address`
pub record Web3 : Type 0 where
  pub is_address : Str → Bool
  pub to_checksum_address : Str → Str
