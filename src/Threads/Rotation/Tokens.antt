-- ===== src/Threads/Rotation/Tokens.antt =====
-- Under `rotationLock`, no interleaving of rotations, recoveries and rollbacks loses the token that
-- the configuration names, or forgets another one.
use mathlib.Core.Logic.{ite}
use vault_custom_secrets_eng.Base.{
  ℕ, ◌≡◌, ◌≢◌, ◌⊎◌, inl, inr, refl, sym, subst, true, false, Option, none, some, arith, ℕ_discrete,
}
use vault_custom_secrets_eng.Threads.{update, System, Reach, Reach-keeps}
use vault_custom_secrets_eng.Threads.Rotation.{
  Shared, Pc, idle, read, chosen, recorded, created, persisted, deleted, looked, doomed, clearing,
  holds, Move, begin, read_config, read_state, put_state, create_token, persist, retire, retired,
  confirm, clear_state, begin_recovery, find_state, choose, choose_new, choose_old, remove, removed,
  fail,
}

-- The rotation state names the token.
abbrev pub IsRecorded : ℕ → Option (ℕ × ℕ) → Type 0
IsRecorded t none = ⊥
IsRecorded t (some (o, n)) = (t ≡ o) ⊎ (t ≡ n)

-- The token is not configured, but the rotation state names it, and the other of its two.
abbrev IsSpare : ℕ → Shared → Type 0
IsSpare t m = (t ≢ m.stored) × ((m.state ≡ some (t, m.stored)) ⊎ (m.state ≡ some (m.stored, t)))

-- What a thread in the lock knows.
abbrev pub Knows : Pc → Shared → Type 0
Knows (read c) m = c ≡ m.stored
Knows (chosen c) m = (c ≡ m.stored) × (m.state ≡ none)
Knows (recorded c n) m = (c ≡ m.stored) × (n ≢ c) × (m.state ≡ some (c, n))
Knows (created c n) m = (c ≡ m.stored) × (n ≢ c) × (m.state ≡ some (c, n)) × (m.live n ≡ true)
Knows (persisted c n) m = (n ≡ m.stored) × (n ≢ c) × (m.state ≡ some (c, n))
Knows (deleted t) m = IsSpare t m
Knows (looked o n) m = m.state ≡ some (o, n)
Knows (doomed t) m = IsSpare t m
Knows clearing m = (t : ℕ) → m.live t ≡ true → t ≡ m.stored
Knows _ m = Unit

-- The configured token is there, and every other one is in the rotation state.
pub record Tidy (m : Shared) : Type 0 where
  pub active : m.live m.stored ≡ true
  pub covered : (t : ℕ) → m.live t ≡ true → (t ≡ m.stored) ⊎ IsRecorded t m.state
  pub agrees : (o n : ℕ) → m.state ≡ some (o, n) → (m.stored ≡ o) ⊎ (m.stored ≡ n)
  pub distinct : (o n : ℕ) → m.state ≡ some (o, n) → n ≢ o

module _ {Drawn : ℕ → ℕ → Type 0} (apart : (c n : ℕ) → Drawn c n → n ≢ c) {m : Shared}
    (tidy : Tidy m) where
  open tidy use {active, covered, agrees, distinct}

  Move-active :
      {m' : Shared} {p p' : Pc} → Move Drawn m p m' p' → Knows p m → m'.live m'.stored ≡ true
  Move-active (create_token {c} {n} free) k = ground (arith, active)
  Move-active (persist {c} {n}) k = k.3
  Move-active (retire {c} {n}) k = ground (arith, active)
  Move-active (remove {t}) k = ground (arith, active)
  Move-active mv k = active

  Move-covered :
      {m' : Shared} {p p' : Pc}
      → Move Drawn m p m' p'
      → Knows p m
      → (t : ℕ) → m'.live t ≡ true
      → (t ≡ m'.stored) ⊎ IsRecorded t m'.state
  Move-covered (put_state {c} n other) k t h = ground (arith, covered t h)
  Move-covered (create_token {c} {n} free) k t h = ground (arith, covered t)
  Move-covered (persist {c} {n}) k t h = ground (arith, covered t)
  Move-covered (retire {c} {n}) k t h = ground (arith, covered t)
  Move-covered (remove {t = d}) k t h = ground (arith, covered t)
  Move-covered clear_state k t h = inl (k t h)
  Move-covered mv k t h = covered t h

  Move-agrees :
      {m' : Shared} {p p' : Pc}
      → Move Drawn m p m' p'
      → Knows p m
      → (o n : ℕ) → m'.state ≡ some (o, n)
      → (m'.stored ≡ o) ⊎ (m'.stored ≡ n)
  Move-agrees (put_state {c} n' other) k o n h = ground (arith, k.0)
  Move-agrees (persist {c} {n = n'}) k o n h = ground (arith, k.2)
  Move-agrees clear_state k o n h = cc
  Move-agrees mv k o n h = agrees o n h

  Move-distinct :
      {m' : Shared} {p p' : Pc}
      → Move Drawn m p m' p'
      → Knows p m
      → (o n : ℕ) → m'.state ≡ some (o, n)
      → n ≢ o
  Move-distinct (put_state {c} n' drawn) k o n h = ground (arith, apart c n' drawn)
  Move-distinct clear_state k o n h = cc
  Move-distinct mv k o n h = distinct o n h

  -- What the thread that moves knows then.
  Move-Knows : {m' : Shared} {p p' : Pc} → Move Drawn m p m' p' → Knows p m → Knows p' m'
  Move-Knows read_config k = refl
  Move-Knows (read_state none_stored) k = (k, none_stored)
  Move-Knows (put_state {c} n drawn) k = (k.0, apart c n drawn, refl)
  Move-Knows (create_token {c} {n} free) k = (k.0, k.1, k.2, ground arith)
  Move-Knows (persist {c} {n}) k = (refl, k.1, k.2)
  Move-Knows (retire {c} {n}) k = ground arith
  Move-Knows (retired {c} {n}) k = ground arith
  Move-Knows (confirm {c} gone) k = λ t h. ground (arith, covered t h)
  Move-Knows (find_state e) k = e
  Move-Knows (choose_new {o} {n} e) k = ground (arith, distinct o n k)
  Move-Knows (choose_old {o} {n} ne e) k = ground (arith, distinct o n k)
  Move-Knows (choose {o} {n} t among spare) k = ground (arith, agrees o n k)
  Move-Knows remove k = k
  Move-Knows removed k = k
  Move-Knows _ k = tt

-- A thread that is not in the lock knows nothing.
Knows-free : (p : Pc) (m : Shared) → holds p ≡ false → Knows p m
Knows-free idle m h = tt
Knows-free p m h = ground arith

pub record Inv (m : Shared) (pc : ℕ → Pc) : Type 0 where
  pub exclusive : (i j : ℕ) → holds (pc i) ≡ true → holds (pc j) ≡ true → i ≡ j
  pub owned : (i : ℕ) → holds (pc i) ≡ true → m.locked ≡ true
  pub tidy : Tidy m
  pub knows : (i : ℕ) → Knows (pc i) m

-- A thread that moves is in the lock, or finds it free.
Guard :
    {Drawn : ℕ → ℕ → Type 0} {m m' : Shared} {p p' : Pc}
    → Move Drawn m p m' p'
    → (holds p ≡ true) ⊎ (m.locked ≡ false)
Guard (begin u) = inr u
Guard (begin_recovery u) = inr u
Guard (fail h) = inl h
Guard _ = inl refl

module _ {Drawn : ℕ → ℕ → Type 0} (apart : (c n : ℕ) → Drawn c n → n ≢ c) {m : Shared} {pc : ℕ → Pc}
    (inv : Inv m pc) (i : ℕ) where
  open inv use {exclusive, owned, tidy, knows}

  Guard_at :
      {m' : Shared} {p p' : Pc}
      → Move Drawn m p m' p'
      → pc i ≡ p
      → (holds (pc i) ≡ true) ⊎ (m.locked ≡ false)
  Guard_at mv e = subst (λ q. (holds q ≡ true) ⊎ (m.locked ≡ false)) (sym e) (Guard mv)

  Move-owned :
      {m' : Shared} {p p' : Pc}
      → Move Drawn m p m' p'
      → pc i ≡ p
      → (j : ℕ) → holds (update pc i p' j) ≡ true
      → m'.locked ≡ true
  Move-owned read_config e j h = ground (arith, owned j, owned i)
  Move-owned (fail inside) e j h = owned i (subst (λ q. holds q ≡ true) (sym e) inside)
  Move-owned mv e j h = ground (arith, Guard_at mv e, owned j, owned i, exclusive i j)

  Move-exclusive :
      {m' : Shared} {p p' : Pc}
      → Move Drawn m p m' p'
      → pc i ≡ p
      → (a b : ℕ) → holds (update pc i p' a) ≡ true
      → holds (update pc i p' b) ≡ true
      → a ≡ b
  Move-exclusive read_config e a b ha hb =
      ground (arith, exclusive a b, exclusive i a, exclusive i b)
  Move-exclusive mv e a b ha hb =
      ground (arith, Guard_at mv e, owned a, owned b, exclusive a b, exclusive i a, exclusive i b)

  -- No other thread is in the lock.
  others_out :
      {m' : Shared} {p p' : Pc}
      → Move Drawn m p m' p'
      → pc i ≡ p
      → (j : ℕ) → i ≢ j
      → holds (pc j) ≡ false
  others_out mv e j other = ground (arith, Guard_at mv e, owned j, exclusive i j)

  threads_know :
      {m' : Shared} {p p' : Pc}
      → Move Drawn m p m' p'
      → pc i ≡ p
      → (j : ℕ) → Knows (update pc i p' j) m'
  threads_know {m'} {p} {p'} mv e j = elim (ℕ_discrete i j) as (λ d. Knows (ite d p' (pc j)) m') [
    | yes same ↦ Move-Knows apart tidy mv (subst (λ q. Knows q m) e (knows i))
    | no other ↦ Knows-free (pc j) m' (others_out mv e j other)
  ]

  Tidy-after : {m' : Shared} {p p' : Pc} → Move Drawn m p m' p' → pc i ≡ p → Tidy m'
  Tidy-after mv e =
      let k = subst (λ q. Knows q m) e (knows i) in
      record {
        active = Move-active apart tidy mv k;
        covered = Move-covered apart tidy mv k;
        agrees = Move-agrees apart tidy mv k;
        distinct = Move-distinct apart tidy mv k;
      }

  Move-Inv : {m' : Shared} {p' : Pc} → Move Drawn m (pc i) m' p' → Inv m' (update pc i p')
  Move-Inv mv = record {
    exclusive = Move-exclusive mv refl;
    owned = Move-owned mv refl;
    tidy = Tidy-after mv refl;
    knows = threads_know mv refl;
  }

-- No handler is under way and no rotation pending, and the configuration's token is the mount's only
-- one.
pub record IsQuiet (s : System Shared Pc) : Type 0 where
  pub no_thread : (i : ℕ) → s.pc i ≡ idle
  pub no_rotation : s.shared.state ≡ none
  pub active : s.shared.live s.shared.stored ≡ true
  pub only : (t : ℕ) → s.shared.live t ≡ true → t ≡ s.shared.stored

Inv-start : (s : System Shared Pc) → IsQuiet s → Inv s.shared s.pc
Inv-start s q = record {
  exclusive = λ i j h k. absurd (ground (arith, q.no_thread i));
  owned = λ i h. absurd (ground (arith, q.no_thread i));
  tidy = record {
    active = q.active;
    covered = λ t h. inl (q.only t h);
    agrees = λ o n h. absurd (ground (arith, q.no_rotation));
    distinct = λ o n h. absurd (ground (arith, q.no_rotation));
  };
  knows = λ i. Knows-free (s.pc i) s.shared (ground (arith, q.no_thread i));
}

-- Where the random source draws no name for a new token that is the current one's, and from a start
-- at which the mount has one token, which the stored configuration names, and where no handler is
-- under way and no rotation pending: in every interleaving of rotations, operator recoveries and WAL
-- rollbacks, which may stop with an error or a crash after any access, PVE has the token that the
-- stored configuration names, and every other token that it has of the mount is named by the stored
-- rotation state. This is while no configuration is written or deleted.
pub active_token_kept :
    {Drawn : ℕ → ℕ → Type 0} {start s : System Shared Pc}
    → ((c n : ℕ) → Drawn c n → n ≢ c)
    → IsQuiet start
    → Reach (Move Drawn) start s
    → (s.shared.live s.shared.stored ≡ true)
      × ((t : ℕ) → s.shared.live t ≡ true → (t ≡ s.shared.stored) ⊎ IsRecorded t s.shared.state)
active_token_kept {start} apart q r =
    let inv =
      Reach-keeps Inv (λ m m' pc i p move inv. Move-Inv apart inv i move) (Inv-start start q) r in
    (inv.tidy.active, inv.tidy.covered)
