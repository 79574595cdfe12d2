-- ===== src/Threads.antt =====
-- Handlers that run at the same time: Vault calls the callbacks of backend.go from any number of
-- goroutines, and the mutexes of `backend` order their accesses to what they share.
pub mod Client
pub mod Roles
pub mod Rotation
use mathlib.Core.Logic.{ite}
use vault_custom_secrets_eng.Base.{ℕ, ℕ_discrete}

-- A family with another value at one index.
abbrev pub update : {P : Type 0} → (ℕ → P) → ℕ → P → ℕ → P
update f i p j = ite (ℕ_discrete i j) p (f j)

-- What is shared, and where each thread stands.
pub record System (S P : Type 0) : Type 0 where
  pub shared : S
  pub pc : ℕ → P

-- One thread moves.
pub data Step {S P : Type 0} (Move : S → P → S → P → Type 0) (s : System S P)
    : System S P → Type 0 where
  pick :
      (i : ℕ) {m : S} {p : P}
      → Move s.shared (s.pc i) m p
      → Step Move s (record { shared = m; pc = update s.pc i p })

-- The states that any interleaving of the threads can reach.
pub data Reach {S P : Type 0} (Move : S → P → S → P → Type 0) (start : System S P)
    : System S P → Type 0 where
  here : Reach Move start start
  later : {s t : System S P} → Reach Move start s → Step Move s t → Reach Move start t

-- A run, step by step.
infixl 20 ◌▸◌
abbrev pub ◌▸◌ :
    {S P : Type 0} {Move : S → P → S → P → Type 0} {start s t : System S P}
    → Reach Move start s
    → Step Move s t
    → Reach Move start t
r ▸ step = later r step

-- What holds at first, and is kept by every move of every thread, holds always.
pub Reach-keeps :
    {S P : Type 0} {Move : S → P → S → P → Type 0} (Inv : S → (ℕ → P) → Type 0)
    {start s : System S P}
    → ((m m' : S) (pc : ℕ → P) (i : ℕ) (p : P)
        → Move m (pc i) m' p
        → Inv m pc
        → Inv m' (update pc i p))
    → Inv start.shared start.pc
    → Reach Move start s
    → Inv s.shared s.pc
Reach-keeps Inv keeps h here = h
Reach-keeps Inv keeps h (later {s} r (pick i {m} {p} move)) =
    keeps s.shared m s.pc i p move (Reach-keeps Inv keeps h r)
