-- ===== src/Deploying/Missing.antt =====
-- What the deployment scripts do where a step before them is missing.
use smart_contracts.Deployments.State.{State}
use smart_contracts.Deploying.Answers.{Answers}
