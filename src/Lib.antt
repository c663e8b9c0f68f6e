-- ===== src/Lib.antt =====
-- Verification library of the AthleteX server (ax-server).
--
-- The server is a FastAPI application: a rate limiting middleware stands before all endpoints,
-- sign-in gives session tokens that the endpoints' dependencies check, administrators keep a
-- registry of prediction markets, order builders look markets up in that registry and answer with
-- unsigned transactions, an event stream publishes market data to subscribed clients, and a worker
-- copies swaps from a subgraph into a database, which the history and market endpoints read.
--
-- The files, and the code that each is about:
--   Prelude, Prelude/*    lists, dictionaries, texts, integers and errors that the parts share
--   RateLimit             app/middleware/rate_limit.py: TokenBucket and the tiers
--   RateLimit/Middleware  the same file: RateLimitMiddleware (buckets, clean-up, tiers, dispatch)
--   Auth/Jwt, Auth/Tokens app/auth/tokens.py: create_access_token, create_refresh_token, verify_token
--   Auth/Deps             app/auth/deps.py: _extract_token, the optional and required checks, the tier
--   Auth/Nonce            app/auth/siwe.py: NonceStore (generate, validate, _cleanup)
--   Auth/Siwe             app/auth/siwe.py: building, parsing and verification of sign-in messages
--   Auth/Endpoints        app/api/v1/auth.py: the five endpoints of the sign-in
--   Predict/Registry      app/chain/prediction_deployer.py: the registry file and its updates
--   Predict/Admin         app/api/v1/admin.py: the endpoints that change the registry
--   Predict/Orders        app/api/v1/predict_orders.py: validation, the cached registry, slippage
--   Predict/Orders/Builders  the same file: build-buy, build-sell, build-mint, build-redeem, quote
--   Predict/Markets       app/api/v1/predict.py: the seeds (Seeds), the list, one market, its price, the
--                         price history (Points) and the two transactions (Transactions)
--   Predict/Stats         the same file: recent trades and the leaderboard
--   Orders                app/api/v1/orders.py: the builders for spot markets and collateral
--   History               app/api/v1/history.py: candles, trades and latest prices
--   Store                 app/services/questdb_client.py: the client that both read from
--   Spot                  app/api/v1/spot.py: the paginated list, prices and quotes
--   Share                 app/api/v1/share.py: creating and showing share cards
--   Ws/Manager, Ws/Poller app/api/ws/events.py: ChannelManager, the commands, the poller's tasks
--   Ws/Polling            the same file: the rounds of MarketPoller
--   Comments              app/api/v1/comments.py: post_comment, delete_comment, and list_comments (Listing)
--   Versus                app/api/v1/versus.py: the leaderboard, one athlete, the matchup
--   Vaults                app/api/v1/vaults.py: pools, values, accounts and debts
--   Ingest                app/services/price_ingest.py: _poll_swaps and _classify_market
--   Ingest/Backfill       the same file: _backfill and the loop
--   Chain/Synthetix       app/chain/synthetix.py: the unsigned transactions
--   Chain/Subgraph        app/chain/subgraph.py: the retries and the paging over all pairs
--   Portfolio             app/api/v1/portfolio.py: balances, positions and transaction builders
--   Chain/Eip7412         app/chain/eip7412.py: oracle data that a revert asks for
--   Chain/Amm             app/chain/uniswap_v2.py: get_amount_out
--   Chain/Uniswap         the same file: signing and sending, pairs, swaps and liquidity
--   Predict/Deploy        app/chain/prediction_deployer.py: approvals, first tokens, pools, market data
--   Chain                 the address functions of web3 that the sign-in endpoints call
--
-- The other files below a part hold its lemmas, and its Tests the concrete inputs.
--
-- How the code is read:
--   - A handler is a function from the state it shares (the limiter, the nonce store, the registry
--     file, the cached registry, the clients and the poller) to that state afterwards and the answer.
--     An exception is an `err`; `api` is an APIError and `exception` any other. A write to the database
--     that raises is taken to have stored nothing.
--   - A text is the list of its code points; case, white space and digits are those of ASCII.
--   - time.time() is a number of microseconds and time.monotonic() of nanoseconds; each call that
--     reads a clock takes its own time, so that time may pass between two calls of one handler.
--     A bucket's tokens are billionths of a token, which makes its arithmetic exact where the source
--     uses floats; the prices of the ingest and price impacts are exact as well.
--   - The endpoints that read markets and history pass floats on: there a float is of any type F, with
--     the operations that a handler uses as a record (Floats, Decimals).
--   - A row of the database is a dictionary, which has items and no attributes (Store.Row).
--   - Recursion is structural everywhere but in `decimal`, whose fuel is one more than the number: a
--     number has no more digits than that; and in the paging over all pairs, which has no result
--     without fuel: one more than the number of pairs is enough.
--   - Libraries are parameters. A JWT library is one that decodes what it encoded until that expires
--     (Auth/Jwt; Auth/Tests/Plain is one). The recovery of a signer, ISO 8601 times, address
--     checksums, gas estimation and all contract calls are functions that may fail.
--
-- Not modelled: the bodies of HTTP responses and their headers other than those of the rate limiter,
-- request validation by the framework, logging, chain reads that only reshape data, the meaning
-- of SQL and subgraph queries, the template of the share page, the trading agents, whose steps are
-- placeholders, and the endpoints that answer constants.
pub mod Auth
pub mod Chain
pub mod Comments
pub mod History
pub mod Ingest
pub mod Orders
pub mod Portfolio
pub mod Predict
pub mod Prelude
pub mod RateLimit
pub mod Share
pub mod Spot
pub mod Store
pub mod Vaults
pub mod Versus
pub mod Ws
