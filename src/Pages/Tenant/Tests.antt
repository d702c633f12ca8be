-- ===== src/Pages/Tenant/Tests.antt =====
-- Runs of the tenant checks.
use rust_auth_example.Base.{◌≡◌, refl, has}
use rust_auth_example.Pages.Tenant.{is_alnum, tenant_id_re, tenant_of, known_tenant_of}

tenant_runs :
    (tenant_of "new-co" ≡ "new-co")
    × (tenant_of "-co" ≡ "acme")
    × (tenant_of "" ≡ "acme")
    × (known_tenant_of "new-co" ≡ "acme")
    × (known_tenant_of "globex" ≡ "globex")
unfolding tenant_of tenant_id_re is_alnum known_tenant_of has
tenant_runs = (refl, refl, refl, refl, refl)
