-- ===== src/Roles/Ttls.antt =====
-- `proxmoxRole.ttls` and `cappedMaxTTL` of path_roles.go. A `time.Duration` is an `int64` of
-- nanoseconds.
use vault_custom_secrets_eng.Base.{ℕ, ℤ, pos, wrap64, mul_ℕ, eqb_ℤ, ltb_ℤ, if◌then◌else◌}
use vault_custom_secrets_eng.Host.Data.{Config, Role}

abbrev pub nanoseconds : ℕ
nanoseconds = 1_000_000_000

-- `time.Duration(seconds) * time.Second`
unfoldable pub duration : ℤ → ℤ
duration seconds = wrap64 (mul_ℕ seconds nanoseconds)

-- `ttls`
unfoldable pub ttls : Role → Config → ℤ × ℤ
unfolding duration
ttls role cfg =
    let ttl = duration role.ttl in
    let max_ttl = duration role.max_ttl in
    (
      if eqb_ℤ ttl (pos 0) then duration cfg.default_ttl else ttl,
      if eqb_ℤ max_ttl (pos 0) then duration cfg.default_max_ttl else max_ttl,
    )

-- `cappedMaxTTL`
unfoldable pub capped_max_ttl : ℤ → ℤ → ℤ
capped_max_ttl role_max sys_max =
    if eqb_ℤ role_max (pos 0)
    then sys_max
    else if eqb_ℤ sys_max (pos 0)
    then role_max
    else if ltb_ℤ role_max sys_max
    then role_max
    else sys_max
