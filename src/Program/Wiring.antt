-- ===== src/Program/Wiring.antt =====
-- The structs that main.go and SetupWithManager put together, and their constructors:
-- internal/controller/musicservice_controller.go, internal/builder/resource_builder.go,
-- internal/status/manager.go, internal/reconciler/app.go and database.go, internal/tone/formatter.go.
-- The types of the client, of the scheme and of the event recorder are parameters.
use kind_music_streaming.Prelude.{Option, none, some}

-- A struct without fields.
pub data Formatter : Type 0 where
  formatter : Formatter

abbrev pub new_formatter : Formatter
new_formatter = formatter

pub record ResourceBuilder (Scheme : Type 0) : Type 0 where
  pub scheme : Scheme

abbrev pub new_resource_builder : {Scheme : Type 0} → Scheme → ResourceBuilder Scheme
new_resource_builder scheme = record { scheme = scheme }

-- `status.Manager`
pub record StatusManager (Client : Type 0) : Type 0 where
  pub client : Client

-- `status.NewManager`
abbrev pub new_status_manager : {Client : Type 0} → Client → StatusManager Client
new_status_manager c = record { client = c }

pub record AppReconciler (Client Scheme : Type 0) : Type 0 where
  pub client : Client
  pub builder : ResourceBuilder Scheme
  pub formatter : Formatter

pub record DatabaseReconciler (Client Scheme : Type 0) : Type 0 where
  pub client : Client
  pub builder : ResourceBuilder Scheme
  pub formatter : Formatter

module _ {Client Scheme : Type 0} where
  abbrev pub new_app_reconciler :
      Client → ResourceBuilder Scheme → Formatter → AppReconciler Client Scheme
  new_app_reconciler c b f = record { client = c; builder = b; formatter = f }

  abbrev pub new_database_reconciler :
      Client → ResourceBuilder Scheme → Formatter → DatabaseReconciler Client Scheme
  new_database_reconciler c b f = record { client = c; builder = b; formatter = f }

-- What main.go leaves out is nil until SetupWithManager has run.
pub record MusicServiceReconciler (Client Scheme Recorder : Type 0) : Type 0 where
  pub client : Client
  pub scheme : Scheme
  pub recorder : Option Recorder
  pub resource_builder : Option (ResourceBuilder Scheme)
  pub status_manager : Option (StatusManager Client)
  pub app_reconciler : Option (AppReconciler Client Scheme)
  pub database_reconciler : Option (DatabaseReconciler Client Scheme)
  pub message_formatter : Option Formatter

module _ {Client Scheme Recorder : Type 0} where
  -- `&controller.MusicServiceReconciler{Client: …, Scheme: …}`
  abbrev pub new_reconciler : Client → Scheme → MusicServiceReconciler Client Scheme Recorder
  new_reconciler c scheme = record {
    client = c;
    scheme = scheme;
    recorder = none;
    resource_builder = none;
    status_manager = none;
    app_reconciler = none;
    database_reconciler = none;
    message_formatter = none;
  }

  -- The assignments of SetupWithManager.
  unfoldable pub initialize :
      Recorder
      → MusicServiceReconciler Client Scheme Recorder
      → MusicServiceReconciler Client Scheme Recorder
  initialize recorder r =
      let builder = new_resource_builder r.scheme in
      let formatter = new_formatter in
      record r {
        recorder = some recorder;
        resource_builder = some builder;
        status_manager = some (new_status_manager r.client);
        message_formatter = some formatter;
        app_reconciler = some (new_app_reconciler r.client builder formatter);
        database_reconciler = some (new_database_reconciler r.client builder formatter);
      }
