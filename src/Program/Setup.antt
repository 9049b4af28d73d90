-- ===== src/Program/Setup.antt =====
-- What the flags mean for the servers of the manager, and when the program exits with an error.
use kind_music_streaming.Prelude.{
  ℕ, ◌≡◌, refl, inl, inr, some, List, [], ◌∷◌, arith, if◌then◌else◌, ◌++◌,
}
use kind_music_streaming.Exec.{Error, ok, err, Exec, pure}
use kind_music_streaming.Exec.Inversion.{pure_ok, handle_ok}
use kind_music_streaming.Program.Wiring.{
  formatter, new_resource_builder, MusicServiceReconciler, initialize,
}
use kind_music_streaming.Program.{
  Flags, TlsConfig, disable_http2, tls_opts, manager_options, controller_watches, Host,
  setup_with_manager, or_exit, main,
}

-- A server applies the options to its configuration, one after the other.
unfoldable pub configured : List (TlsConfig → TlsConfig) → TlsConfig → TlsConfig
configured [] c = c
configured (opt ∷ opts) c = configured opts (opt c)

-- Without the flag for HTTP/2, the metrics server and the webhook server offer HTTP/1.1 and nothing
-- else, whatever their configuration was before; with it, they offer what they did.
pub manager_options-protocols :
    {Scheme : Type 0} (scheme : Scheme) (flags : Flags) (c : TlsConfig)
    → ((configured (manager_options scheme flags).metrics.tls_opts c).next_protos
        ≡ (if flags.enable_http2 then c.next_protos else "http/1.1" ∷ []))
      × ((configured (manager_options scheme flags).webhook_tls_opts c).next_protos
          ≡ (if flags.enable_http2 then c.next_protos else "http/1.1" ∷ []))
unfolding manager_options tls_opts disable_http2 configured
manager_options-protocols scheme flags c = ground arith

module _ (h : Host) where
  -- Calls that succeed one after the other.
  pub data Runs : List (Exec h.World (Unit {0})) → h.World → h.World → Type 0 where
    done : {w : h.World} → Runs [] w w
    call :
        {m : Exec h.World (Unit {0})} {rest : List (Exec h.World (Unit {0}))} {w w₁ w' : h.World}
        → m w ≡ (ok tt, w₁)
        → Runs rest w₁ w'
        → Runs (m ∷ rest) w w'

  -- The reconciler as the manager runs it: one client and one scheme, those of the manager, for all
  -- its parts, and events under the name of the controller.
  unfoldable pub wired : h.Manager → MusicServiceReconciler h.Client h.Scheme h.Recorder
  wired mgr =
      let builder = new_resource_builder (h.get_scheme mgr) in
      record {
        client = h.get_client mgr;
        scheme = h.get_scheme mgr;
        recorder = some (h.get_event_recorder_for mgr "musicservice-controller");
        resource_builder = some builder;
        status_manager = some (record { client = h.get_client mgr });
        app_reconciler =
            some (record { client = h.get_client mgr; builder = builder; formatter = formatter });
        database_reconciler =
            some (record { client = h.get_client mgr; builder = builder; formatter = formatter });
        message_formatter = some formatter;
      }

  -- The calls of the set-up, once there is a manager.
  unfoldable pub setup_calls : h.Manager → List (Exec h.World (Unit {0}))
  unfolding wired
  setup_calls mgr =
      h.complete mgr controller_watches (wired mgr)
      ∷ h.add_healthz_check mgr "healthz"
      ∷ h.add_readyz_check mgr "readyz"
      ∷ h.start mgr
      ∷ []

  unfoldable pub all_or_exit : List (Exec h.World (Unit {0})) → Exec h.World ℕ
  unfolding or_exit
  all_or_exit [] = pure 0
  all_or_exit (m ∷ rest) = or_exit h m λ _. all_or_exit rest

  pub main-all :
      (scheme : h.Scheme) (flags : Flags)
      → main h scheme flags
        ≡ or_exit h
            (h.new_manager (manager_options scheme flags))
            λ mgr. all_or_exit (setup_calls mgr)
  unfolding main all_or_exit setup_calls setup_with_manager initialize
  main-all scheme flags = refl

  -- The exit code of calls from the first on: 0 exactly when all return, 1 where one fails.
  pub all_or_exit-Runs :
      (calls : List (Exec h.World (Unit {0}))) (w w' : h.World)
      → all_or_exit calls w ≡ (ok 0, w')
      → Runs calls w w'
  unfolding all_or_exit or_exit
  all_or_exit-Runs [] w w' run = let (_, same) = pure_ok 0 0 w w' run in rw (← same) done
  all_or_exit-Runs (m ∷ rest) w w' run =
      elim (handle_ok m (λ _. pure 1) (λ _. all_or_exit rest) 0 w w' run) [
        | inl (e, w₁, failed, exit) ↦
            let (wrong, _) = pure_ok 1 0 w₁ w' exit in absurd (omega arith)
        | inr (u, w₁, ran, later) ↦ call ran (all_or_exit-Runs rest w₁ w' later)
      ]

  pub Runs-all_or_exit :
      (calls : List (Exec h.World (Unit {0}))) (w w' : h.World)
      → Runs calls w w'
      → all_or_exit calls w ≡ (ok 0, w')
  unfolding all_or_exit or_exit
  Runs-all_or_exit [] w w' done = refl
  Runs-all_or_exit (m ∷ rest) w w' (call {w₁ = w₁} ran later) =
      ground (arith, Runs-all_or_exit rest w₁ w' later)

  pub all_or_exit-fails :
      (before after : List (Exec h.World (Unit {0}))) (m : Exec h.World (Unit {0})) (e : Error)
      (w w₁ w₂ : h.World)
      → Runs before w w₁
      → m w₁ ≡ (err e, w₂)
      → all_or_exit (before ++ (m ∷ after)) w ≡ (ok 1, w₂)
  unfolding all_or_exit or_exit
  all_or_exit-fails [] after m e w w₁ w₂ done failed = ground arith
  all_or_exit-fails (x ∷ before) after m e w w₁ w₂ (call {w₁ = v} ran later) failed =
      ground (arith, all_or_exit-fails before after m e v w₁ w₂ later failed)
