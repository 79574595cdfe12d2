-- ===== src/Creds/Expiry.antt =====
-- path_creds.go and secret_token.go: the expiry that goes to PVE, and the group that is read back.
use vault_custom_secrets_eng.Base.{
  ℕ, ◌+◌, ◌*◌, ◌^◌, ◌/◌, ◌≤◌, ◌<◌, ◌≡◌, ◌↔◌, ◌⊎◌, inl, inr, true, List, [], ◌∷◌, Bytes, text_eq_iff,
  ℤ, pos, negsuc, ◌+ℤ◌, wrap64, wrap64_fits, arith, ◌<ℤ◌,
}
use vault_custom_secrets_eng.Host.Event.{Event, Log}
use vault_custom_secrets_eng.Pveapi.Client.Answers.{Among}
use vault_custom_secrets_eng.Creds.{contains_group, expire_unix, unix_after}

-- The newest reading of the clock gave this time, in nanoseconds.
abbrev pub ToldTime : ℕ → Log → Type 0
ToldTime now [] = ⊥
ToldTime now (Event.told_time t ∷ l) = t ≡ now
ToldTime now (_ ∷ l) = ToldTime now l

-- The expiry is the end of the TTL in whole Unix seconds, and a minute more, where an `int64` holds
-- that.
abbrev pub IsExpiry : ℕ → ℤ → ℤ → Type 0
IsExpiry now (pos ttl) expire =
    (seconds : ℕ) × (seconds * 1_000_000_000 ≤ now + ttl)
    × (now + ttl < (seconds + 1) * 1_000_000_000)
    × ((expire ≡ pos (seconds + 60)) ⊎ (2 ^ 63 ≤ seconds + 60))
IsExpiry now (negsuc ttl) expire = ⊥

small_or_large : (n m : ℕ) → (m < n) ⊎ (n ≤ m)
small_or_large n m = ground arith

plus_grace : (seconds : ℕ) → pos seconds +ℤ pos 60 ≡ pos (seconds + 60)
unfolding ◌+ℤ◌
plus_grace seconds = ground arith

grace_lem :
    (seconds : ℕ) → (wrap64 (pos seconds +ℤ pos 60) ≡ pos (seconds + 60)) ⊎ (2 ^ 63 ≤ seconds + 60)
grace_lem seconds = elim (small_or_large (2 ^ 63) (seconds + 60)) [
  | inl fits ↦ inl (rw (plus_grace seconds) (wrap64_fits (pos (seconds + 60)) fits (omega arith)))
  | inr large ↦ inr large
]

pub expire_unix-IsExpiry :
    (now : ℕ) (ttl : ℤ) → pos 0 <ℤ ttl → IsExpiry now ttl (expire_unix now ttl)
unfolding expire_unix unix_after
expire_unix-IsExpiry now (pos ttl) lives =
    ((now + ttl) / 1_000_000_000, omega arith, omega arith, grace_lem ((now + ttl) / 1_000_000_000))
expire_unix-IsExpiry now (negsuc ttl) lives = absurd (omega arith)

pub contains_group_iff :
    (groups : List Bytes) (group : Bytes)
    → (contains_group groups group ≡ true) ↔ Among group groups
unfolding contains_group
contains_group_iff [] group = (λ h. cc, λ h. absurd h)
contains_group_iff (g ∷ groups) group =
    ground (arith, text_eq_iff g group, contains_group_iff groups group)
