-- ===== src/Diagnosing.antt =====
-- The scripts that read and report: scripts/check-permissions.js, find-proxyadmin.js,
-- check-proxy-admin.js, verify-mulsig-address.js, diagnose-upgrade-issue.js and debug-proposal-data.js. A result holds what
-- is logged.
pub mod Api
pub mod Permissions
pub mod FindAdmin
pub mod CheckAdmin
pub mod Verify
pub mod Upgrade
pub mod Debug
pub mod Nothing
pub mod Tests
