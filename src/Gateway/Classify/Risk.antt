-- ===== src/Gateway/Classify/Risk.antt =====
-- app/routes/gateway.py: where an error is taken for risk control.
use zcode2api.Prelude.Json
use zcode2api.Prelude.Json.{Json, null, bool, int, float, str, arr}
