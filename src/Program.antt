-- ===== src/Program.antt =====
-- cmd/main.go, SetupWithManager of internal/controller/musicservice_controller.go, and the scheme of
-- api/v1/groupversion_info.go: the options of the manager, and the set-up of the program.
pub mod Wiring
pub mod Setup
pub mod Start
use kind_music_streaming.Prelude.{ℕ, String, Bool, true, false, not, List, [], ◌∷◌, if◌then◌else◌}
use kind_music_streaming.Exec.{Outcome, ok, err, panic, Exec, pure, ◌>>=◌, ◌>>◌, handle}
use kind_music_streaming.Program.Wiring.{MusicServiceReconciler, new_reconciler, initialize}

-- The command line, with the defaults of the flags.
pub record Flags : Type 0 where
  pub metrics_bind_address : String
  pub health_probe_bind_address : String
  pub leader_elect : Bool
  pub metrics_secure : Bool
  pub enable_http2 : Bool

abbrev pub default_flags : Flags
default_flags = record {
  metrics_bind_address = "0";
  health_probe_bind_address = ":8081";
  leader_elect = false;
  metrics_secure = false;
  enable_http2 = false;
}

-- The field of `tls.Config` that the program writes.
pub record TlsConfig : Type 0 where
  pub next_protos : List String

-- `metricsserver.Options`
pub record MetricsOptions : Type 0 where
  pub bind_address : String
  pub secure_serving : Bool
  pub tls_opts : List (TlsConfig → TlsConfig)

-- `ctrl.Options`; the webhook server is given by its `TLSOpts`.
pub record Options (Scheme : Type 0) : Type 0 where
  pub scheme : Scheme
  pub metrics : MetricsOptions
  pub webhook_tls_opts : List (TlsConfig → TlsConfig)
  pub health_probe_bind_address : String
  pub leader_election : Bool
  pub leader_election_id : String

unfoldable pub disable_http2 : TlsConfig → TlsConfig
disable_http2 c = record c { next_protos = "http/1.1" ∷ [] }

unfoldable pub tls_opts : Flags → List (TlsConfig → TlsConfig)
unfolding disable_http2
tls_opts flags = if not flags.enable_http2 then disable_http2 ∷ [] else []

unfoldable pub manager_options : {Scheme : Type 0} → Scheme → Flags → Options Scheme
unfolding tls_opts
manager_options scheme flags = record {
  scheme = scheme;
  metrics = record {
    bind_address = flags.metrics_bind_address;
    secure_serving = flags.metrics_secure;
    tls_opts = tls_opts flags;
  };
  webhook_tls_opts = tls_opts flags;
  health_probe_bind_address = flags.health_probe_bind_address;
  leader_election = flags.leader_elect;
  leader_election_id = "f358b7ec.dev.example.com";
}

-- The kinds that the controller watches: `For`, then `Owns` in order.
pub record Watches : Type 0 where
  pub for_kind : String
  pub owns : List String

abbrev pub controller_watches : Watches
controller_watches = record { for_kind = "MusicService"; owns = "StatefulSet" ∷ "Service" ∷ [] }

-- `schema.GroupVersion`
pub record GroupVersion : Type 0 where
  pub group : String
  pub version : String

abbrev pub group_version : GroupVersion
group_version = record { group = "music.mixcorp.org"; version = "v1" }

-- controller-runtime and apimachinery's schemes, as the program calls them, over an unknown state.
-- `new_scheme_builder` and `add_to_scheme` belong to `scheme.Builder`, and `register` is given the
-- kinds of its objects; `client_go_add_to_scheme` is the AddToScheme of client-go. `new_manager`
-- stands for `ctrl.NewManager` with the configuration that was read, `complete` for `Complete` of the
-- builder, and both checks are pings.
pub record Host : Type 1 where
  pub World : Type 0
  pub Scheme : Type 0
  pub SchemeBuilder : Type 0
  pub Manager : Type 0
  pub Client : Type 0
  pub Recorder : Type 0
  pub new_scheme : Scheme
  pub client_go_add_to_scheme : Exec Scheme (Unit {0})
  pub new_scheme_builder : GroupVersion → SchemeBuilder
  pub register : List String → SchemeBuilder → SchemeBuilder
  pub add_to_scheme : SchemeBuilder → Exec Scheme (Unit {0})
  pub new_manager : Options Scheme → Exec World Manager
  pub get_client : Manager → Client
  pub get_scheme : Manager → Scheme
  pub get_event_recorder_for : Manager → String → Recorder
  pub complete :
      Manager → Watches → MusicServiceReconciler Client Scheme Recorder → Exec World (Unit {0})
  pub add_healthz_check : Manager → String → Exec World (Unit {0})
  pub add_readyz_check : Manager → String → Exec World (Unit {0})
  pub start : Manager → Exec World (Unit {0})

-- The kinds of the objects that the init function of api/v1/musicservice_types.go registers.
abbrev pub registered_kinds : List String
registered_kinds = "MusicService" ∷ "MusicServiceList" ∷ []

module _ (h : Host) where
  -- `SchemeBuilder`, once the init function of the package has run.
  unfoldable pub scheme_builder : h.SchemeBuilder
  scheme_builder = h.register registered_kinds (h.new_scheme_builder group_version)

  -- `utilruntime.Must`
  unfoldable pub must : Exec h.Scheme (Unit {0}) → Exec h.Scheme (Unit {0})
  unfolding pure handle
  must m = handle m (λ _ scheme. (panic, scheme)) pure

  unfoldable pub init : Exec h.Scheme (Unit {0})
  unfolding must scheme_builder ◌>>=◌
  init = must h.client_go_add_to_scheme >> must (h.add_to_scheme scheme_builder)

  unfoldable pub setup_with_manager :
      MusicServiceReconciler h.Client h.Scheme h.Recorder → h.Manager → Exec h.World (Unit {0})
  unfolding initialize
  setup_with_manager r mgr =
      h.complete mgr controller_watches
        (initialize (h.get_event_recorder_for mgr "musicservice-controller") r)

  -- `if err := m; err != nil { …; os.Exit(1) }`, with the exit code as the result.
  unfoldable pub or_exit : {A : Type 0} → Exec h.World A → (A → Exec h.World ℕ) → Exec h.World ℕ
  unfolding pure handle
  or_exit m rest = handle m (λ _. pure 1) rest

  -- The exit code of main.
  unfoldable pub main : h.Scheme → Flags → Exec h.World ℕ
  unfolding or_exit setup_with_manager manager_options pure
  main scheme flags = or_exit (h.new_manager (manager_options scheme flags)) λ mgr.
      or_exit (setup_with_manager (new_reconciler (h.get_client mgr) (h.get_scheme mgr)) mgr) λ _.
        or_exit (h.add_healthz_check mgr "healthz")
          λ _. or_exit (h.add_readyz_check mgr "readyz") λ _. or_exit (h.start mgr) λ _. pure 0

  -- Main runs when init has returned.
  unfoldable pub after_init : Outcome (Unit {0}) × h.Scheme → Flags → Exec h.World ℕ
  unfolding main
  after_init (ok _, scheme) flags w = main scheme flags w
  after_init (err e, scheme) flags w = (err e, w)
  after_init (panic, scheme) flags w = (panic, w)

  unfoldable pub program : Flags → Exec h.World ℕ
  unfolding after_init init
  program flags = after_init (init h.new_scheme) flags
