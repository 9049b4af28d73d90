-- ===== src/Tests/Started.antt =====
-- The theorems on the set-up, on a host that writes down its calls.
use kind_music_streaming.Prelude.{String, ◌≡◌, refl, ◌↔◌, true, List, [], ◌∷◌, ◌++◌}
use kind_music_streaming.Exec.{Error, Exec, ok, err}
use kind_music_streaming.Program.{
  default_flags, TlsConfig, manager_options, controller_watches, Host, scheme_builder, main,
  program,
}
use kind_music_streaming.Program.Setup.{
  configured, done, wired, setup_calls, manager_options-protocols,
}
use kind_music_streaming.Program.Start.{Succeeds, Fails, main-stops, program-Succeeds_iff}

abbrev logged : String → Exec (List String) (Unit {0})
logged name w = (ok tt, name ∷ w)

abbrev added : String → Exec (List String) (Unit {0})
added name scheme = (ok tt, name ∷ scheme)

abbrev added_each : List String → Exec (List String) (Unit {0})
added_each [] scheme = (ok tt, scheme)
added_each (name ∷ names) scheme = added_each names (name ∷ scheme)

abbrev host : Host
host = record {
  World = List String;
  Scheme = List String;
  SchemeBuilder = List String;
  Manager = List String;
  Client = String;
  Recorder = String;
  new_scheme = [];
  client_go_add_to_scheme = added "Pod";
  new_scheme_builder = λ version. [];
  register = λ kinds builder. kinds ++ builder;
  add_to_scheme = added_each;
  new_manager = λ options w. (ok options.scheme, "manager" ∷ w);
  get_client = λ mgr. "client";
  get_scheme = λ mgr. mgr;
  get_event_recorder_for = λ mgr name. name;
  complete = λ mgr watches r. logged watches.for_kind;
  add_healthz_check = λ mgr. logged;
  add_readyz_check = λ mgr. logged;
  start = λ mgr. logged "start";
}

-- The API server does not know the kind that is to be watched.
abbrev unknown : Error
unknown = record { is_not_found = true; message = "no matches for kind" }

abbrev without_kind : Host
without_kind = record host { complete = λ mgr watches r w. (err unknown, w) }

abbrev no_kinds : List String
no_kinds = []

abbrev negotiating : TlsConfig
negotiating = record { next_protos = "h2" ∷ "http/1.1" ∷ [] }

manager_options-protocols_example :
    ((configured (manager_options no_kinds default_flags).metrics.tls_opts negotiating).next_protos
      ≡ "http/1.1" ∷ [])
    × ((configured
          (manager_options no_kinds default_flags).webhook_tls_opts
          negotiating).next_protos
        ≡ "http/1.1" ∷ [])
manager_options-protocols_example = manager_options-protocols no_kinds default_flags negotiating

abbrev all_calls : List String
all_calls = "start" ∷ "readyz" ∷ "healthz" ∷ "MusicService" ∷ "manager" ∷ []

program-Succeeds_iff_example :
    (program host default_flags [] ≡ (ok 0, all_calls)) ↔ Succeeds host default_flags [] all_calls
program-Succeeds_iff_example = program-Succeeds_iff host default_flags [] all_calls

-- All calls are made.
all_made : program host default_flags [] ≡ (ok 0, all_calls)
unfolding program main manager_options scheme_builder
all_made = refl

completion-Fails : Fails without_kind no_kinds default_flags [] ("manager" ∷ [])
unfolding setup_calls wired manager_options
completion-Fails =
    Fails.at_call no_kinds [] (logged "healthz" ∷ logged "readyz" ∷ logged "start" ∷ [])
      (without_kind.complete no_kinds controller_watches (wired without_kind no_kinds)) unknown
      ("manager" ∷ []) ("manager" ∷ []) refl refl done refl

main-stops_example : main without_kind no_kinds default_flags [] ≡ (ok 1, "manager" ∷ [])
main-stops_example =
    main-stops without_kind no_kinds default_flags [] ("manager" ∷ []) completion-Fails
