-- ===== src/Pages/Tenant.antt =====
-- How the pages read `?tenant=` from the URL: by the pattern of the forgot-password, reset-password,
-- verify-email and register pages, and by the list of workspaces of the login page.
mod Tests
use rust_auth_example.Base.{
  ℕ, Bool, true, false, ◌&&◌, ◌||◌, String, List, [], ◌∷◌, ◌≡◌, refl, leb, ◌==◌, length, every,
  codes, has, has-every, Bool-cases, inl, inr, if◌then◌else◌,
}

-- `[a-z0-9]`
is_alnum : ℕ → Bool
is_alnum c = (leb b'a' c && leb c b'z') || (leb b'0' c && leb c b'9')

-- `/^[a-z0-9][a-z0-9-]{0,62}$/`
pub tenant_id_re : List ℕ → Bool
tenant_id_re [] = false
tenant_id_re (c ∷ s) = is_alnum c && (every (λ d. is_alnum d || (d == b'-')) s && leb (length s) 62)

-- `TENANT_ID_RE.test(rawTenantId) ? rawTenantId : 'acme'`
pub tenant_of : String → String
tenant_of raw = if tenant_id_re (codes raw) then raw else "acme"

-- `KNOWN_TENANTS` of the login page
abbrev pub known_tenants : List String
known_tenants = "acme" ∷ "globex" ∷ []

-- `KNOWN_TENANTS.has(rawTenantId) ? rawTenantId : DEFAULT_TENANT`
pub known_tenant_of : String → String
known_tenant_of raw = if has known_tenants raw then raw else "acme"

pub known_tenant_of-has : (raw : String) → has known_tenants (known_tenant_of raw) ≡ true
unfolding known_tenant_of has
known_tenant_of-has raw = elim (Bool-cases (has known_tenants raw)) [
  | inl e ↦ rw e e
  | inr e ↦ rw e refl
]

-- The tenant that a page sends is a slug whatever the URL says, and a slug in the URL is sent as it
-- is; the login page's is always one of its workspaces, and each of these is a slug.
pub tenant_of-slug :
    (raw : String)
    → (tenant_id_re (codes (tenant_of raw)) ≡ true)
      × (tenant_id_re (codes raw) ≡ true → tenant_of raw ≡ raw)
      × (has known_tenants (known_tenant_of raw) ≡ true)
      × (tenant_of (known_tenant_of raw) ≡ known_tenant_of raw)
unfolding tenant_of known_tenant_of tenant_id_re is_alnum has
tenant_of-slug raw = (slug_of, λ h. rw h refl, known_tenant_of-has raw, kept)
  where
    slug_of : tenant_id_re (codes (tenant_of raw)) ≡ true
    slug_of = elim (Bool-cases (tenant_id_re (codes raw))) [ inl e ↦ rw e e | inr e ↦ rw e refl ]

    kept : tenant_of (known_tenant_of raw) ≡ known_tenant_of raw
    kept = elim (Bool-cases (has known_tenants raw)) [
      | inl e ↦ rw e (rw (has-every (λ t. tenant_id_re (codes t)) known_tenants raw e refl) refl)
      | inr e ↦ rw e refl
    ]
