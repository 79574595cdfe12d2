-- ===== src/Threads/Client/Inv.antt =====
-- The cached client of backend.go under any interleaving of its users.
use vault_custom_secrets_eng.Base.{
  ℕ, ◌≡◌, ◌⊎◌, inl, inr, refl, Bool, true, false, none, some, arith, ℕ_discrete,
}
use vault_custom_secrets_eng.Host.Data.{Config}
use vault_custom_secrets_eng.Threads.{update, System, Reach, Reach-keeps}
use vault_custom_secrets_eng.Threads.Client.{
  Shared, Pc, idle, checking, loading, loaded, written, clearing, Move, hit, miss, lock, found,
  absent, load, built, write, begin_clear, clear,
}

-- Between `Lock` and `Unlock` of `clientMu`.
abbrev pub holds : Pc → Bool
holds checking = true
holds loading = true
holds (loaded c) = true
holds clearing = true
holds _ = false

-- Between a change of storage and the end of its `invalidate`.
abbrev pub pending : Pc → Bool
pending written = true
pending clearing = true
pending _ = false

-- Some thread is about to drop the cached client.
abbrev pub SomePending : (ℕ → Pc) → Type 0
SomePending pc = (i : ℕ) × (pending (pc i) ≡ true)

pub record Inv (m : Shared) (pc : ℕ → Pc) : Type 0 where
  pub exclusive : (i j : ℕ) → holds (pc i) ≡ true → holds (pc j) ≡ true → i ≡ j
  pub owned : (i : ℕ) → holds (pc i) ≡ true → m.locked ≡ true
  pub cached : (c : Config) → m.cache ≡ some c → (m.stored ≡ some c) ⊎ SomePending pc
  pub fresh : (i : ℕ) (c : Config) → pc i ≡ loaded c → (m.stored ≡ some c) ⊎ SomePending pc

-- The premises of a move.
abbrev Guard : {m m' : Shared} {p p' : Pc} → Move m p m' p' → Type 0
Guard {m} (hit {c} _ _) = (m.locked ≡ false) × (m.cache ≡ some c)
Guard {m} (miss _ _) = (m.locked ≡ false) × (m.cache ≡ none)
Guard {m} (lock _) = m.locked ≡ false
Guard {m} (found {c} _) = m.cache ≡ some c
Guard {m} (absent _) = m.cache ≡ none
Guard {m} (load {c} _) = m.stored ≡ some c
Guard {m} (begin_clear _) = m.locked ≡ false
Guard _ = Unit

guard : {m m' : Shared} {p p' : Pc} (mv : Move m p m' p') → Guard mv
guard (hit u e) = (u, e)
guard (miss u e) = (u, e)
guard (lock u) = u
guard (found e) = e
guard (absent e) = e
guard (load e) = e
guard (begin_clear u) = u
guard _ = tt

-- The move ends an `invalidate`.
abbrev Drops : {m m' : Shared} {p p' : Pc} → Move m p m' p' → Type 0
Drops clear = Unit
Drops _ = ⊥

module _ {m : Shared} {pc : ℕ → Pc} (inv : Inv m pc) (i : ℕ) where
  open inv use {exclusive, owned, cached, fresh}

  Move-owned :
      {m' : Shared} {p p' : Pc}
      → Move m p m' p'
      → pc i ≡ p
      → (j : ℕ) → holds (update pc i p' j) ≡ true
      → m'.locked ≡ true
  Move-owned (hit u f) e j h = ground (arith, owned j, owned i)
  Move-owned mv e j h = ground (arith, guard mv, owned j, owned i, exclusive i j)

  Move-exclusive :
      {m' : Shared} {p p' : Pc}
      → Move m p m' p'
      → pc i ≡ p
      → (a b : ℕ) → holds (update pc i p' a) ≡ true
      → holds (update pc i p' b) ≡ true
      → a ≡ b
  Move-exclusive (hit u f) e a b ha hb = ground (arith, exclusive a b)
  Move-exclusive mv e a b ha hb =
      ground (arith, guard mv, owned a, owned b, exclusive a b, exclusive i a, exclusive i b)

  -- Whoever was pending still is, unless the move drops the client.
  SomePending-move :
      {m' : Shared} {p p' : Pc} (mv : Move m p m' p')
      → pc i ≡ p
      → SomePending pc
      → SomePending (update pc i p') ⊎ Drops mv
  SomePending-move clear e w = inr tt
  SomePending-move mv e (k, w) = inl (k, ground (arith, guard mv))

  Move-cached :
      {m' : Shared} {p p' : Pc}
      → Move m p m' p'
      → pc i ≡ p
      → (c : Config) → m'.cache ≡ some c
      → (m'.stored ≡ some c) ⊎ SomePending (update pc i p')
  Move-cached (write v) e c h = inr (i, ground arith)
  Move-cached (built {c = c'}) e c h = elim (fresh i c' e) [
    | inl s ↦ inl (ground arith)
    | inr w ↦ elim (SomePending-move built e w) [ inl k ↦ inr k | inr drops ↦ absurd drops ]
  ]
  Move-cached clear e c h = cc
  Move-cached mv e c h = elim (cached c (ground (arith, guard mv))) [
    | inl s ↦ inl (ground arith)
    | inr w ↦ elim (SomePending-move mv e w) [ inl k ↦ inr k | inr drops ↦ absurd drops ]
  ]

  Move-fresh :
      {m' : Shared} {p p' : Pc}
      → Move m p m' p'
      → pc i ≡ p
      → (j : ℕ) (c : Config) → update pc i p' j ≡ loaded c
      → (m'.stored ≡ some c) ⊎ SomePending (update pc i p')
  Move-fresh (write v) e j c h = inr (i, ground arith)
  Move-fresh (load {c = c'} s) e j c h = elim (ℕ_discrete i j) [
    | yes same ↦ inl (ground arith)
    | no other ↦ elim (fresh j c (ground arith)) [
      | inl k ↦ inl k
      | inr w ↦ elim (SomePending-move (load s) e w) [ inl k ↦ inr k | inr drops ↦ absurd drops ]
    ]
  ]
  Move-fresh clear e j c h = absurd (ground (arith, exclusive i j))
  Move-fresh mv e j c h = elim (fresh j c (ground (arith, guard mv))) [
    | inl k ↦ inl (ground arith)
    | inr w ↦ elim (SomePending-move mv e w) [ inl k ↦ inr k | inr drops ↦ absurd drops ]
  ]

  pub Move-Inv : {m' : Shared} {p' : Pc} → Move m (pc i) m' p' → Inv m' (update pc i p')
  Move-Inv mv = record {
    exclusive = Move-exclusive mv refl;
    owned = Move-owned mv refl;
    cached = Move-cached mv refl;
    fresh = Move-fresh mv refl;
  }

-- No thread is in `getClient` or `invalidate`, and the lock is free.
pub record IsQuiet (s : System Shared Pc) : Type 0 where
  pub no_thread : (i : ℕ) → s.pc i ≡ idle
  pub no_client : s.shared.cache ≡ none

Inv-start : (s : System Shared Pc) → IsQuiet s → Inv s.shared s.pc
Inv-start s q = record {
  exclusive = λ i j h k. absurd (ground (arith, q.no_thread i));
  owned = λ i h. absurd (ground (arith, q.no_thread i));
  cached = λ c h. absurd (ground (arith, q.no_client));
  fresh = λ i c h. absurd (ground (arith, q.no_thread i));
}

pub Reach-Inv :
    {start s : System Shared Pc} → IsQuiet start → Reach Move start s → Inv s.shared s.pc
Reach-Inv {start} q r =
    Reach-keeps Inv (λ m m' pc i p move inv. Move-Inv inv i move) (Inv-start start q) r

-- From a start with no client and no call under way, in every interleaving of `getClient` with
-- changes of the configuration: where every change of storage has been followed by its `invalidate`,
-- a cached client is that of the stored configuration.
pub cache_coherent :
    {start s : System Shared Pc}
    → IsQuiet start
    → Reach Move start s
    → ((i : ℕ) → pending (s.pc i) ≡ false)
    → (c : Config) → s.shared.cache ≡ some c
    → s.shared.stored ≡ some c
cache_coherent q r settled c h = elim ((Reach-Inv q r).cached c h) [
  | inl k ↦ k
  | inr (i, w) ↦ absurd (ground (arith, settled i))
]
