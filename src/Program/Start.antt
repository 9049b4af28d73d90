-- ===== src/Program/Start.antt =====
-- When the program of cmd/main.go runs to its end, and where it stops.
use kind_music_streaming.Prelude.{◌≡◌, refl, sym, ap, ◌∙◌, ◌↔◌, inl, inr, List, ◌∷◌, arith, ◌++◌}
use kind_music_streaming.Exec.{Outcome, panic, Error, ok, err, Exec, pure, ◌>>=◌, handle}
use kind_music_streaming.Exec.Inversion.{pure_ok, bind_ok, handle_ok}
use kind_music_streaming.Program.Setup.{
  Runs, setup_calls, all_or_exit, main-all, all_or_exit-Runs, Runs-all_or_exit, all_or_exit-fails,
}
use kind_music_streaming.Program.{
  Flags, manager_options, Host, scheme_builder, must, init, or_exit, main, after_init, program,
}

module _ (h : Host) where
  -- A run in which nothing fails: both kinds of types are added to a new scheme, the manager is
  -- created with this scheme and the options of the flags, and the calls of the set-up succeed.
  pub record Succeeds (flags : Flags) (w w' : h.World) : Type 0 where
    pub client_go_scheme : h.Scheme
    pub scheme : h.Scheme
    pub mgr : h.Manager
    pub created : h.World
    pub adds_client_go : h.client_go_add_to_scheme h.new_scheme ≡ (ok tt, client_go_scheme)
    pub adds_music : h.add_to_scheme (scheme_builder h) client_go_scheme ≡ (ok tt, scheme)
    pub creates : h.new_manager (manager_options scheme flags) w ≡ (ok mgr, created)
    pub runs : Runs h (setup_calls h mgr) created w'

  -- The first failure of main.
  pub data Fails (scheme : h.Scheme) (flags : Flags) : h.World → h.World → Type 0 where
    no_manager :
        {e : Error} {w w' : h.World}
        → h.new_manager (manager_options scheme flags) w ≡ (err e, w')
        → Fails scheme flags w w'
    at_call :
        (mgr : h.Manager) (before after : List (Exec h.World (Unit {0})))
        (m : Exec h.World (Unit {0})) (e : Error) {w : h.World} (w₁ w₂ : h.World) {w' : h.World}
        → h.new_manager (manager_options scheme flags) w ≡ (ok mgr, w₁)
        → setup_calls h mgr ≡ before ++ (m ∷ after)
        → Runs h before w₁ w₂
        → m w₂ ≡ (err e, w')
        → Fails scheme flags w w'

  main-Succeeds :
      (scheme : h.Scheme) (flags : Flags) (w w' : h.World)
      → main h scheme flags w ≡ (ok 0, w')
      → (mgr : h.Manager) × (w₁ : h.World) × (h.new_manager (manager_options scheme flags) w
          ≡ (ok mgr, w₁))
        × Runs h (setup_calls h mgr) w₁ w'
  unfolding or_exit
  main-Succeeds scheme flags w w' run =
      elim (handle_ok (h.new_manager (manager_options scheme flags)) (λ _. pure 1)
        (λ mgr. all_or_exit h (setup_calls h mgr)) 0 w w'
        (ap (λ p. p w) (sym (main-all h scheme flags)) ∙ run)) [
          | inl (e, w₁, failed, exit) ↦
              let (wrong, _) = pure_ok 1 0 w₁ w' exit in absurd (omega arith)
          | inr (mgr, w₁, created, later) ↦
              (mgr, w₁, created, all_or_exit-Runs h (setup_calls h mgr) w₁ w' later)
        ]

  Succeeds-main :
      (scheme : h.Scheme) (flags : Flags) (mgr : h.Manager) (w w₁ w' : h.World)
      → h.new_manager (manager_options scheme flags) w ≡ (ok mgr, w₁)
      → Runs h (setup_calls h mgr) w₁ w'
      → main h scheme flags w ≡ (ok 0, w')
  unfolding or_exit handle
  Succeeds-main scheme flags mgr w w₁ w' created runs =
      rw (main-all h scheme flags, created) (Runs-all_or_exit h (setup_calls h mgr) w₁ w' runs)

  -- When the creation of the manager or a later call of the set-up is the first to fail, main ends
  -- there with the exit code 1, and makes no later call.
  pub main-stops :
      (scheme : h.Scheme) (flags : Flags) (w w' : h.World)
      → Fails scheme flags w w'
      → main h scheme flags w ≡ (ok 1, w')
  unfolding or_exit handle pure
  main-stops scheme flags w w' (no_manager failed) = rw (main-all h scheme flags, failed) refl
  main-stops scheme flags w w' (at_call mgr before after m e w₁ w₂ created split ran failed) =
      rw (main-all h scheme flags, created, split)
        (all_or_exit-fails h before after m e w₁ w₂ w' ran failed)

  must_ok :
      (m : Exec h.Scheme (Unit {0})) (s s' : h.Scheme)
      → must h m s ≡ (ok tt, s')
      → m s ≡ (ok tt, s')
  unfolding must handle pure
  must_ok m s s' e = ground arith

  after_init_ok :
      (r : Outcome (Unit {0}) × h.Scheme) (flags : Flags) (w w' : h.World)
      → after_init h r flags w ≡ (ok 0, w')
      → (scheme : h.Scheme) × (r ≡ (ok tt, scheme)) × (main h scheme flags w ≡ (ok 0, w'))
  unfolding after_init
  after_init_ok (ok tt, scheme) flags w w' e = (scheme, refl, e)
  after_init_ok (err x, scheme) flags w w' e = absurd (ground arith)
  after_init_ok (panic, scheme) flags w w' e = absurd (ground arith)

  init_ok :
      (scheme : h.Scheme)
      → init h h.new_scheme ≡ (ok tt, scheme)
      → (s₁ : h.Scheme) × (h.client_go_add_to_scheme h.new_scheme ≡ (ok tt, s₁))
        × (h.add_to_scheme (scheme_builder h) s₁ ≡ (ok tt, scheme))
  unfolding init
  init_ok scheme e =
      let (_, s₁, first, second) =
        bind_ok (must h h.client_go_add_to_scheme) _ tt h.new_scheme scheme e in
      (
        s₁,
        must_ok h.client_go_add_to_scheme h.new_scheme s₁ first,
        must_ok (h.add_to_scheme (scheme_builder h)) s₁ scheme second,
      )

  program-Succeeds :
      (flags : Flags) (w w' : h.World) → program h flags w ≡ (ok 0, w') → Succeeds flags w w'
  unfolding program
  program-Succeeds flags w w' run =
      let (scheme, started, ran) = after_init_ok (init h h.new_scheme) flags w w' run in
      let (s₁, client_go, music) = init_ok scheme started in
      let (mgr, w₁, created, calls) = main-Succeeds scheme flags w w' ran in
      record {
        client_go_scheme = s₁;
        scheme = scheme;
        mgr = mgr;
        created = w₁;
        adds_client_go = client_go;
        adds_music = music;
        creates = created;
        runs = calls;
      }

  Succeeds-init :
      (flags : Flags) (w w' : h.World) (s : Succeeds flags w w')
      → init h h.new_scheme ≡ pure tt s.scheme
  unfolding init must handle pure ◌>>=◌
  Succeeds-init flags w w' s = rw (s.adds_client_go, s.adds_music) refl

  Succeeds-program :
      (flags : Flags) (w w' : h.World) → Succeeds flags w w' → program h flags w ≡ (ok 0, w')
  unfolding program after_init pure
  Succeeds-program flags w w' s =
      rw (Succeeds-init flags w w' s)
        (Succeeds-main s.scheme flags s.mgr w s.created w' s.creates s.runs)

  -- The program ends with the exit code 0 exactly when nothing fails: the kinds of client-go and those
  -- of the MusicService are added to a new scheme, the manager is created with it and the options of
  -- the flags, the controller is completed with a reconciler that is wired to the manager, both checks
  -- are added and the manager runs to its end, in this order and without an error.
  pub program-Succeeds_iff :
      (flags : Flags) (w w' : h.World) → (program h flags w ≡ (ok 0, w')) ↔ Succeeds flags w w'
  program-Succeeds_iff flags w w' = (program-Succeeds flags w w', Succeeds-program flags w w')
