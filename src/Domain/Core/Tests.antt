-- ===== src/Domain/Core/Tests.antt =====
-- crates/jlink-domain/src/core.rs, on concrete names.
use jlink_mcp_v.Base.{◌≡◌, refl}
use jlink_mcp_v.Domain.Error.{ok}
use jlink_mcp_v.Domain.Core.{from_canonical, psp}

psp_named : from_canonical "PSP" ≡ ok psp
unfolding from_canonical
psp_named = refl
