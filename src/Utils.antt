-- ===== src/Utils.antt =====
-- internal/utils: tenants, validation of input, and the secrets that the services mint and compare.
pub mod Regex
pub mod Hex
pub mod Text
pub mod Validation
pub mod Secrets
use an.Prelude.{String, ◌==◌, if◌then◌else◌}

abbrev pub default_tenant_id : String
default_tenant_id = "default"

unfoldable pub tenant_or_default : String → String
tenant_or_default tenant_id = if tenant_id == "" then default_tenant_id else tenant_id
