-- ===== src/Threads/Rotation/Writers.antt =====
-- `configWrite` of path_config.go beside the handlers under `rotationLock`, which it does not take:
-- it asks PVE about the token of the request, and stores the configuration later.
use vault_custom_secrets_eng.Base.{ℕ, ◌≡◌, true}
use vault_custom_secrets_eng.Threads.Rotation.{Shared, Pc, idle, Move}

pub data WriterPc : Type 0 where
  engine : Pc → WriterPc
  vetted : ℕ → WriterPc  -- after the calls of PVE, before `Put`

pub data WriterMove (Drawn : ℕ → ℕ → Type 0) (m : Shared)
    : WriterPc → Shared → WriterPc → Type 0 where
  moves :
      {m' : Shared} {p p' : Pc}
      → Move Drawn m p m' p'
      → WriterMove Drawn m (engine p) m' (engine p')
  vet : (c : ℕ) → m.live c ≡ true → WriterMove Drawn m (engine idle) m (vetted c)
  put_config : {c : ℕ} → WriterMove Drawn m (vetted c) (record m { stored = c }) (engine idle)
