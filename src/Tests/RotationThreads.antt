-- ===== src/Tests/RotationThreads.antt =====
-- Two interleavings of rotations: a rotation that stops after the new configuration is stored, with
-- the rollback of its WAL entry, and a rotation during a write of the configuration.
use vault_custom_secrets_eng.Base.{
  ℕ, ◌≢◌, ◌≡◌, ◌⊎◌, refl, Bool, true, false, none, some, arith, ℕ_discrete,
}
use vault_custom_secrets_eng.Threads.{update, System, Reach, here, pick, ◌▸◌}
use vault_custom_secrets_eng.Threads.Rotation.{
  Shared, Pc, idle, starting, read, chosen, recorded, created, persisted, deleted, recovering,
  looked, doomed, clearing, leaving, Move, begin, read_config, read_state, put_state, create_token,
  persist, retire, confirm, clear_state, begin_recovery, find_state, choose_old, fail, unlock,
}
use vault_custom_secrets_eng.Threads.Rotation.Tokens.{IsRecorded, active_token_kept}
use vault_custom_secrets_eng.Threads.Rotation.Writers.{
  WriterPc, engine, vetted, WriterMove, moves, vet, put_config,
}

-- The mount has the token 0.
abbrev first_token : ℕ → Bool
first_token = update (λ t. false) 0 true

abbrev before : Shared
before = record { stored = 0; live = first_token; state = none; locked = false }

abbrev rotation_start : System Shared Pc
rotation_start = record { shared = before; pc = λ i. idle }

-- Thread 0 stops after it has stored the new configuration, and thread 1 is about to delete the old
-- token.
abbrev rotation_end : System Shared Pc
rotation_end = record {
  shared = record {
    stored = 1;
    live = update first_token 1 true;
    state = some (0, 1);
    locked = true;
  };
  pc =
      let pc = update (λ i. idle) 0 starting in
      let pc = update pc 0 (read 0) in
      let pc = update pc 0 (chosen 0) in
      let pc = update pc 0 (recorded 0 1) in
      let pc = update pc 0 (created 0 1) in
      let pc = update pc 0 (persisted 0 1) in
      let pc = update pc 0 leaving in
      let pc = update pc 0 idle in
      let pc = update pc 1 recovering in
      let pc = update pc 1 (looked 0 1) in update pc 1 (doomed 0);
}

-- Every other name can be drawn.
abbrev Other : ℕ → ℕ → Type 0
Other c n = n ≢ c

rotation_run : Reach (Move Other) rotation_start rotation_end
unfolding ℕ_discrete
rotation_run =
    here
    ▸ pick 0 (begin refl)
    ▸ pick 0 read_config
    ▸ pick 0 (read_state refl)
    ▸ pick 0 (put_state 1 (λ e. cc))
    ▸ pick 0 (create_token refl)
    ▸ pick 0 persist
    ▸ pick 0 (fail refl)
    ▸ pick 0 unlock
    ▸ pick 1 (begin_recovery refl)
    ▸ pick 1 (find_state refl)
    ▸ pick 1 (choose_old (λ e. cc) refl)

active_token_kept_example :
    (rotation_end.shared.live 1 ≡ true)
    × ((t : ℕ) → rotation_end.shared.live t ≡ true → (t ≡ 1) ⊎ IsRecorded t (some (0, 1)))
unfolding ℕ_discrete
active_token_kept_example =
    active_token_kept (λ c n other. other)
      (record {
        no_thread = λ i. refl;
        no_rotation = refl;
        active = refl;
        only = λ t h. ground arith;
      })
      rotation_run

-- A configuration with the token 0 is asked about before a rotation and stored in the middle of it.
abbrev race_end : System Shared WriterPc
race_end = record {
  shared = record {
    stored = 0;
    live = update (update first_token 1 true) 0 false;
    state = none;
    locked = false;
  };
  pc =
      let pc = update (λ i. engine idle) 1 (vetted 0) in
      let pc = update pc 0 (engine starting) in
      let pc = update pc 0 (engine (read 0)) in
      let pc = update pc 0 (engine (chosen 0)) in
      let pc = update pc 0 (engine (recorded 0 1)) in
      let pc = update pc 0 (engine (created 0 1)) in
      let pc = update pc 0 (engine (persisted 0 1)) in
      let pc = update pc 1 (engine idle) in
      let pc = update pc 0 (engine (deleted 0)) in
      let pc = update pc 0 (engine clearing) in
      let pc = update pc 0 (engine leaving) in update pc 0 (engine idle);
}

race_run : Reach (WriterMove Other) (record { shared = before; pc = λ i. engine idle }) race_end
unfolding ℕ_discrete
race_run =
    here
    ▸ pick 1 (vet 0 refl)
    ▸ pick 0 (moves (begin refl))
    ▸ pick 0 (moves read_config)
    ▸ pick 0 (moves (read_state refl))
    ▸ pick 0 (moves (put_state 1 (λ e. cc)))
    ▸ pick 0 (moves (create_token refl))
    ▸ pick 0 (moves persist)
    ▸ pick 1 put_config
    ▸ pick 0 (moves retire)
    ▸ pick 0 (moves (confirm refl))
    ▸ pick 0 (moves clear_state)
    ▸ pick 0 (moves unlock)

-- The configuration names a token that PVE does not have, and no rotation is recorded.
race_loses_token : race_end.shared.live race_end.shared.stored ≡ false
unfolding ℕ_discrete
race_loses_token = refl
