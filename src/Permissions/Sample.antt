-- ===== src/Permissions/Sample.antt =====
-- A principal for the tests.
use personal_assistant.Common.{none, some, [], String}
use personal_assistant.Permissions.{Principal}
use personal_assistant.Permissions.Tiers.{p3}

-- a trusted member of the tenant, of tier P3
abbrev pub member : String → Principal
member tenant = record {
  principal_id = "alice";
  tenant_id = tenant;
  auth_subject = "alice";
  auth_provider = none;
  permission_tier = p3;
  permissions = [];
  scopes = [];
  trusted_source = some "test";
}
