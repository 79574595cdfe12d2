-- ===== src/Threads/Roles/Serial.antt =====
-- Under `roleLock`, the writes and deletions of a role take effect one after the other.
use vault_custom_secrets_eng.Base.{
  ℕ, ◌≡◌, refl, Bool, true, false, Option, none, some, List, [], ◌∷◌, arith,
}
use vault_custom_secrets_eng.Host.Data.{Role}
use vault_custom_secrets_eng.Roles.Write.{RoleFields}
use vault_custom_secrets_eng.Threads.{update, System, Reach, Reach-keeps}
use vault_custom_secrets_eng.Threads.Roles.{
  Change, wrote, removed, Shared, Pc, idle, checking, merge, Move, begin_write, load, store,
  begin_delete, delete,
}

-- The role that the changes leave when each is made at once, on what the ones before have left.
abbrev pub replay : Option Role → List Change → Option Role
replay first [] = first
replay first (wrote fields ∷ changes) = some (merge fields (replay first changes))
replay first (removed ∷ changes) = none

-- Between `Lock` and `Unlock` of `roleLock`.
abbrev pub holds : Pc → Bool
holds idle = false
holds _ = true

pub record Inv (first : Option Role) (m : Shared) (pc : ℕ → Pc) : Type 0 where
  pub exclusive : (i j : ℕ) → holds (pc i) ≡ true → holds (pc j) ≡ true → i ≡ j
  pub owned : (i : ℕ) → holds (pc i) ≡ true → m.locked ≡ true
  pub serial : m.stored ≡ replay first m.history
  pub current :
      (i : ℕ) (fields : RoleFields) (existing : Option Role)
      → pc i ≡ checking fields existing
      → existing ≡ m.stored

-- The premise of a move.
abbrev Guard : {m m' : Shared} {p p' : Pc} → Move m p m' p' → Type 0
Guard {m} (begin_write fields u) = m.locked ≡ false
Guard {m} (begin_delete u) = m.locked ≡ false
Guard _ = Unit

guard : {m m' : Shared} {p p' : Pc} (mv : Move m p m' p') → Guard mv
guard (begin_write fields u) = u
guard (begin_delete u) = u
guard _ = tt

module _ {first : Option Role} {m : Shared} {pc : ℕ → Pc} (inv : Inv first m pc) (i : ℕ) where
  open inv use {exclusive, owned, serial, current}

  Move-owned :
      {m' : Shared} {p p' : Pc}
      → Move m p m' p'
      → pc i ≡ p
      → (j : ℕ) → holds (update pc i p' j) ≡ true
      → m'.locked ≡ true
  Move-owned load e j h = ground (arith, owned j, owned i)
  Move-owned mv e j h = ground (arith, guard mv, owned j, owned i, exclusive i j)

  Move-exclusive :
      {m' : Shared} {p p' : Pc}
      → Move m p m' p'
      → pc i ≡ p
      → (a b : ℕ) → holds (update pc i p' a) ≡ true
      → holds (update pc i p' b) ≡ true
      → a ≡ b
  Move-exclusive load e a b ha hb = ground (arith, exclusive a b, exclusive i a, exclusive i b)
  Move-exclusive mv e a b ha hb =
      ground (arith, guard mv, owned a, owned b, exclusive a b, exclusive i a, exclusive i b)

  Move-serial :
      {m' : Shared} {p p' : Pc} → Move m p m' p' → pc i ≡ p → m'.stored ≡ replay first m'.history
  Move-serial (store {fields} {existing}) e = rw (current i fields existing e, serial) refl
  Move-serial delete e = refl
  Move-serial mv e = serial

  Move-current :
      {m' : Shared} {p p' : Pc}
      → Move m p m' p'
      → pc i ≡ p
      → (j : ℕ) (fields : RoleFields) (existing : Option Role)
      → update pc i p' j ≡ checking fields existing
      → existing ≡ m'.stored
  Move-current load e j fields existing h = ground (arith, current j fields existing)
  Move-current mv e j fields existing h =
      ground (arith, guard mv, current j fields existing, exclusive i j)

  pub Move-Inv : {m' : Shared} {p' : Pc} → Move m (pc i) m' p' → Inv first m' (update pc i p')
  Move-Inv mv = record {
    exclusive = Move-exclusive mv refl;
    owned = Move-owned mv refl;
    serial = Move-serial mv refl;
    current = Move-current mv refl;
  }

-- No thread is in a handler, and no change has been made.
pub record IsQuiet (s : System Shared Pc) : Type 0 where
  pub no_thread : (i : ℕ) → s.pc i ≡ idle
  pub no_change : s.shared.history ≡ []

Inv-start : (s : System Shared Pc) → IsQuiet s → Inv s.shared.stored s.shared s.pc
Inv-start s q = record {
  exclusive = λ i j h k. absurd (ground (arith, q.no_thread i));
  owned = λ i h. absurd (ground (arith, q.no_thread i));
  serial = rw q.no_change refl;
  current = λ i fields existing h. absurd (ground (arith, q.no_thread i));
}

-- In every interleaving of writes and deletions of a role: the stored role is always what the
-- changes so far leave when they are made one after the other, each write by merging its fields
-- into what the changes before it have left. So no write drops a field of another one, and none
-- brings back a role that was deleted after it was read.
pub stored_serial :
    {start s : System Shared Pc}
    → IsQuiet start
    → Reach Move start s
    → s.shared.stored ≡ replay start.shared.stored s.shared.history
stored_serial {start} q r =
    (Reach-keeps (Inv start.shared.stored) (λ m m' pc i p move inv. Move-Inv inv i move)
      (Inv-start start q) r).serial
