-- ===== src/Threads/Rotation.antt =====
-- `rotateRoot` and `recoverRotation` of path_rotate_root.go and `walRollbackRotation` of wal.go with
-- `rotationLock`, an access to storage or PVE at a time. The token IDs of a mount's provisioner are
-- numbered.
pub mod Tokens
pub mod Writers
use vault_custom_secrets_eng.Base.{ℕ, ◌≡◌, ◌≢◌, ◌⊎◌, Bool, true, false, Option, none, some}
use vault_custom_secrets_eng.Threads.{update}

-- The token of the stored configuration, the tokens that PVE has, the old and the new token of the
-- stored rotation state, and `rotationLock`.
pub record Shared : Type 0 where
  pub stored : ℕ
  pub live : ℕ → Bool
  pub state : Option (ℕ × ℕ)
  pub locked : Bool

pub data Pc : Type 0 where
  idle : Pc
  starting : Pc  -- `rotateRoot` in the lock, before `getConfig`
  read : ℕ → Pc  -- with the token of the configuration
  chosen : ℕ → Pc  -- and no rotation state is stored
  recorded : ℕ → ℕ → Pc  -- the old and the new token are stored
  created : ℕ → ℕ → Pc  -- the new token is made
  persisted : ℕ → ℕ → Pc  -- the new configuration is stored
  deleted : ℕ → Pc  -- before `TokenExists` of the deleted token
  recovering : Pc  -- a recovery or a rollback in the lock, before it reads the rotation state
  looked : ℕ → ℕ → Pc  -- with the tokens of the rotation state
  doomed : ℕ → Pc  -- before `DeleteToken`
  clearing : Pc  -- before `Delete` of the rotation state
  leaving : Pc  -- before `Unlock`

-- Between `Lock` and `Unlock` of `rotationLock`.
abbrev pub holds : Pc → Bool
holds idle = false
holds _ = true

abbrev with_live : Shared → ℕ → Bool → Shared
with_live m t b = record m { live = update m.live t b }

-- One access. A call that reports an error may have taken effect: then it is the access followed by
-- `fail`. A handler that stops early, and a crash, are `fail` too: what it leaves stored stays.
-- `Drawn` tells which new names the random source can give beside a current one; PVE makes no token
-- that it has. That a rollback may drop a WAL entry which does not decode is left out: it touches
-- neither the tokens nor what is stored of a rotation.
pub data Move (Drawn : ℕ → ℕ → Type 0) (m : Shared) : Pc → Shared → Pc → Type 0 where
  begin : m.locked ≡ false → Move Drawn m idle (record m { locked = true }) starting
  read_config : Move Drawn m starting m (read m.stored)
  read_state : {c : ℕ} → m.state ≡ none → Move Drawn m (read c) m (chosen c)
  put_state :
      {c : ℕ} (n : ℕ)
      → Drawn c n
      → Move Drawn m (chosen c) (record m { state = some (c, n) }) (recorded c n)
  create_token :
      {c n : ℕ} → m.live n ≡ false → Move Drawn m (recorded c n) (with_live m n true) (created c n)
  persist : {c n : ℕ} → Move Drawn m (created c n) (record m { stored = n }) (persisted c n)
  retire : {c n : ℕ} → Move Drawn m (persisted c n) (with_live m c false) (deleted c)
  -- the old token is not found
  retired : {c n : ℕ} → Move Drawn m (persisted c n) m (deleted c)
  confirm : {c : ℕ} → m.live c ≡ false → Move Drawn m (deleted c) m clearing
  clear_state : Move Drawn m clearing (record m { state = none }) leaving
  begin_recovery : m.locked ≡ false → Move Drawn m idle (record m { locked = true }) recovering
  find_state : {o n : ℕ} → m.state ≡ some (o, n) → Move Drawn m recovering m (looked o n)
  -- the rollback takes the new token where the old one is configured, and the old one where the new is
  choose_new : {o n : ℕ} → m.stored ≡ o → Move Drawn m (looked o n) m (doomed n)
  choose_old : {o n : ℕ} → m.stored ≢ o → m.stored ≡ n → Move Drawn m (looked o n) m (doomed o)
  -- the recovery is given a token, and refuses the one that is configured
  choose :
      {o n : ℕ} (t : ℕ) → (t ≡ o) ⊎ (t ≡ n) → t ≢ m.stored → Move Drawn m (looked o n) m (doomed t)
  remove : {t : ℕ} → Move Drawn m (doomed t) (with_live m t false) (deleted t)
  -- the token is not found
  removed : {t : ℕ} → Move Drawn m (doomed t) m (deleted t)
  fail : {p : Pc} → holds p ≡ true → Move Drawn m p m leaving
  unlock : Move Drawn m leaving (record m { locked = false }) idle
