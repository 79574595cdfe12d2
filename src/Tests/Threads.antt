-- ===== src/Tests/Threads.antt =====
-- The theorems on threads, at two interleavings: a configuration is changed between two looks of
-- `getClient`, and a role is deleted between two writes.
use vault_custom_secrets_eng.Base.{
  ℕ, ◌≡◌, refl, true, false, none, some, [], ◌∷◌, codes, arith, ℕ_discrete, pos,
}
use vault_custom_secrets_eng.Host.Data.{Config}
use vault_custom_secrets_eng.Roles.Write.{RoleFields}
use vault_custom_secrets_eng.Threads.{update, System, Reach, here, ◌▸◌, pick}
use vault_custom_secrets_eng.Threads.Client
use vault_custom_secrets_eng.Threads.Client.Inv
use vault_custom_secrets_eng.Threads.Client.Inv.{cache_coherent}
use vault_custom_secrets_eng.Threads.Roles
use vault_custom_secrets_eng.Threads.Roles.Serial
use vault_custom_secrets_eng.Threads.Roles.Serial.{stored_serial}
use vault_custom_secrets_eng.Tests.{test_config, test_role}

abbrev new_config : Config
new_config = record test_config { token_id = codes "root@pam!new" }

abbrev client_start : System Client.Shared Client.Pc
client_start = record {
  shared = record { cache = none; stored = some test_config; locked = false };
  pc = λ i. Client.idle;
}

-- Thread 1 changes the configuration, and thread 0 builds a client.
abbrev client_end : System Client.Shared Client.Pc
client_end = record {
  shared = record { cache = some new_config; stored = some new_config; locked = false };
  pc =
      let pc = update (λ i. Client.idle) 0 Client.missed in
      let pc = update pc 1 Client.written in
      let pc = update pc 1 Client.clearing in
      let pc = update pc 1 Client.idle in
      let pc = update pc 0 Client.checking in
      let pc = update pc 0 Client.loading in
      let pc = update pc 0 (Client.loaded new_config) in update pc 0 (Client.serving new_config);
}

client_run : Reach Client.Move client_start client_end
unfolding ℕ_discrete
client_run =
    here
    ▸ pick 0 (Client.miss refl refl)
    ▸ pick 1 (Client.write (some new_config))
    ▸ pick 1 (Client.begin_clear refl)
    ▸ pick 1 Client.clear
    ▸ pick 0 (Client.lock refl)
    ▸ pick 0 (Client.absent refl)
    ▸ pick 0 (Client.load refl)
    ▸ pick 0 Client.built

client_settled : (i : ℕ) → Inv.pending (client_end.pc i) ≡ false
client_settled i = ground arith

cache_coherent_example : client_end.shared.stored ≡ some new_config
cache_coherent_example =
    cache_coherent (record { no_thread = λ i. refl; no_client = refl }) client_run client_settled
      new_config refl

abbrev group_only : RoleFields
group_only = record {
  group = some (codes "dev-team");
  user_prefix = none;
  realm = none;
  ttl = none;
  max_ttl = none;
  mode = none;
}

abbrev ttl_only : RoleFields
ttl_only = record group_only { group = none; ttl = some (pos 60) }

abbrev role_start : System Roles.Shared Roles.Pc
role_start = record {
  shared = record { stored = some test_role; locked = false; history = [] };
  pc = λ i. Roles.idle;
}

-- Thread 0 writes the group, and thread 1 the TTL.
abbrev role_end : System Roles.Shared Roles.Pc
role_end = record {
  shared = record {
    stored = some (Roles.merge ttl_only (some (Roles.merge group_only (some test_role))));
    locked = true;
    history = Roles.wrote ttl_only ∷ Roles.wrote group_only ∷ [];
  };
  pc =
      let pc = update (λ i. Roles.idle) 0 (Roles.loading group_only) in
      let pc = update pc 0 (Roles.checking group_only (some test_role)) in
      let pc = update pc 0 Roles.leaving in
      let pc = update pc 0 Roles.idle in
      let pc = update pc 1 (Roles.loading ttl_only) in
      let pc =
        update pc 1 (Roles.checking ttl_only (some (Roles.merge group_only (some test_role)))) in
      update pc 1 Roles.leaving;
}

role_run : Reach Roles.Move role_start role_end
unfolding ℕ_discrete
role_run =
    here
    ▸ pick 0 (Roles.begin_write group_only refl)
    ▸ pick 0 Roles.load
    ▸ pick 0 Roles.store
    ▸ pick 0 Roles.unlock
    ▸ pick 1 (Roles.begin_write ttl_only refl)
    ▸ pick 1 Roles.load
    ▸ pick 1 Roles.store

stored_serial_example :
    role_end.shared.stored ≡ Serial.replay (some test_role) role_end.shared.history
stored_serial_example = stored_serial (record { no_thread = λ i. refl; no_change = refl }) role_run
