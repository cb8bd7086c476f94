-- ===== src/Diagnosing/Nothing.antt =====
-- What scripts/check-proxy-admin.js finds.
use smart_contracts.Script.{Script}
