-- ===== src/Roles/Limits.antt =====
-- `proxmoxRole.ttls` and `cappedMaxTTL` of path_roles.go against exact arithmetic on seconds. The
-- framework gives durations as seconds of a `time.Duration`, so they are below `max_seconds`.
use vault_custom_secrets_eng.Base.{
  ℕ, ◌*◌, ◌≤◌, ◌≡◌, ◌↔◌, ◌⊎◌, ℤ, pos, ◌≤ℤ◌, ◌==◌, sym, ap, subst, wrap64_fits, mul_ℕ, if◌then◌else◌,
  arith,
}
use vault_custom_secrets_eng.Host.Data.{Config, Role}
use vault_custom_secrets_eng.Roles.Ttls.{nanoseconds, duration, ttls, capped_max_ttl}

-- The whole seconds of the longest `time.Duration`.
abbrev pub max_seconds : ℕ
max_seconds = 9_223_372_036

-- A duration is within a limit; 0 stands for no limit.
abbrev pub Within : ℤ → ℤ → Type 0
Within t limit = (limit ≡ pos 0) ⊎ (t ≤ℤ limit)

-- The first of two numbers that is set.
abbrev pub first_set : ℕ → ℕ → ℕ
first_set a b = if a == 0 then b else a

duration_exact : (n : ℕ) → n ≤ max_seconds → duration (pos n) ≡ pos (n * nanoseconds)
unfolding duration mul_ℕ
duration_exact n h = wrap64_fits (pos (n * nanoseconds)) (omega arith) (omega arith)

-- The stricter of the limits that are set.
capped_max_ttl_iff : (t a b : ℤ) → Within t (capped_max_ttl a b) ↔ (Within t a × Within t b)
unfolding capped_max_ttl
capped_max_ttl_iff t a b = ground arith

-- A field holds a natural number of seconds that fits a `time.Duration`.
abbrev pub IsSeconds : ℤ → ℕ → Type 0
IsSeconds field n = (field ≡ pos n) × (n ≤ max_seconds)

module _ (role : Role) (cfg : Config) {ttl max_ttl default_ttl default_max_ttl : ℕ} where
  ttls_exact :
      IsSeconds role.ttl ttl
      → IsSeconds role.max_ttl max_ttl
      → IsSeconds cfg.default_ttl default_ttl
      → IsSeconds cfg.default_max_ttl default_max_ttl
      → ttls role cfg ≡ (
        pos (first_set ttl default_ttl * nanoseconds),
        pos (first_set max_ttl default_max_ttl * nanoseconds),
      )
  unfolding ttls
  ttls_exact (r1, h1) (r2, h2) (c1, h3) (c2, h4) = ground (
    arith,
    duration_exact ttl h1,
    duration_exact max_ttl h2,
    duration_exact default_ttl h3,
    duration_exact default_max_ttl h4,
  )

  -- Where the role's and the configuration's limits are natural numbers of seconds that fit a
  -- time.Duration: the TTL that issuance asks for is the role's, or where that is 0 the
  -- configuration's, in nanoseconds without overflow; and a duration is within the ceiling of the
  -- lease, where 0 stands for no ceiling, exactly when it is within the role's maximum, or where that
  -- is 0 the configuration's, and within the system's, each only if it is not 0.
  pub limits_iff :
      IsSeconds role.ttl ttl
      → IsSeconds role.max_ttl max_ttl
      → IsSeconds cfg.default_ttl default_ttl
      → IsSeconds cfg.default_max_ttl default_max_ttl
      → (t system : ℤ)
      → ((ttls role cfg).0 ≡ pos (first_set ttl default_ttl * nanoseconds))
        × (Within t (capped_max_ttl (ttls role cfg).1 system)
            ↔ (Within t (pos (first_set max_ttl default_max_ttl * nanoseconds)) × Within t system))
  limits_iff r1 r2 c1 c2 t system =
      let exact = ttls_exact r1 r2 c1 c2 in
      (
        ap (λ p. p.0) exact,
        subst
            (λ p. Within t (capped_max_ttl p.1 system) ↔ (
              Within t (pos (first_set max_ttl default_max_ttl * nanoseconds)) × Within t system))
            (sym exact)
            (capped_max_ttl_iff t (pos (first_set max_ttl default_max_ttl * nanoseconds)) system),
      )
