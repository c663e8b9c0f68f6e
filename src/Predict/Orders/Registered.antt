-- ===== src/Predict/Orders/Registered.antt =====
-- What a registration of app/chain/prediction_deployer.py means for the lookups of
-- app/api/v1/predict_orders.py.
use ax_server.Prelude.Dict.{Dict}
use ax_server.Prelude.Dict
