-- ===== src/Threads/Client.antt =====
-- `getClient` and `invalidate` of backend.go with `clientMu`, an access at a time, and what
-- `configWrite`, `configDelete` and the rotation do around `invalidate`.
pub mod Inv
use vault_custom_secrets_eng.Base.{◌≡◌, Bool, true, false, Option, none, some}
use vault_custom_secrets_eng.Host.Data.{Config}

-- `client`, the stored configuration, and whether `clientMu` is locked for writing.
pub record Shared : Type 0 where
  pub cache : Option Config
  pub stored : Option Config
  pub locked : Bool

-- Where a thread stands, with its live variables.
pub data Pc : Type 0 where
  idle : Pc
  missed : Pc  -- `getClient` has read nil, before `Lock`
  checking : Pc  -- in the lock, before the second look at the cache
  loading : Pc  -- in the lock, before `getConfig`
  loaded : Config → Pc  -- in the lock, with the configuration that was read
  serving : Config → Pc  -- `getClient` has returned the client
  written : Pc  -- storage has changed, before `invalidate`
  clearing : Pc  -- in the lock of `invalidate`

-- One access. `RLock` and `Lock` wait while the lock is held for writing; the read between `RLock`
-- and `RUnlock` is one access. A write to storage that fails changes nothing.
pub data Move (m : Shared) : Pc → Shared → Pc → Type 0 where
  hit : {c : Config} → m.locked ≡ false → m.cache ≡ some c → Move m idle m (serving c)
  miss : m.locked ≡ false → m.cache ≡ none → Move m idle m missed
  lock : m.locked ≡ false → Move m missed (record m { locked = true }) checking
  found :
      {c : Config} → m.cache ≡ some c → Move m checking (record m { locked = false }) (serving c)
  absent : m.cache ≡ none → Move m checking m loading
  load : {c : Config} → m.stored ≡ some c → Move m loading m (loaded c)
  -- storage fails or has no configuration
  give_up : Move m loading (record m { locked = false }) idle
  -- `newClient` fails
  unbuilt : {c : Config} → Move m (loaded c) (record m { locked = false }) idle
  built : {c : Config} → Move m (loaded c) (record m { cache = some c; locked = false }) (serving c)
  serve : {c : Config} → Move m (serving c) m idle
  write : (v : Option Config) → Move m idle (record m { stored = v }) written
  begin_clear : m.locked ≡ false → Move m written (record m { locked = true }) clearing
  clear : Move m clearing (record m { cache = none; locked = false }) idle
