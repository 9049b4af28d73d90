-- ===== src/Tests/Quiescent.antt =====
-- A round of "radio" on a server in memory that holds all that it asks for.
use mathlib.Core.Option
use kind_music_streaming.Prelude.Int.{pos}
use kind_music_streaming.Prelude.{
  ◌≡◌, refl, sym, ap, ◌∙◌, Option-cases, inl, inr, none, some, [], ◌∷◌, codes, lookup, arith,
}
use kind_music_streaming.Kube.{NamespacedName, Secret}
use kind_music_streaming.Api.{MusicService}
use kind_music_streaming.Exec.{ok, err}
use kind_music_streaming.Platform.{Kind, Obj, stateful_set, service, autoscaler, secret}
use kind_music_streaming.Builder.{
  name_of, build_app_service, build_app_stateful_set, build_database_master_service,
  build_database_read_service, build_database_master_stateful_set,
  build_database_replica_stateful_set,
}
use kind_music_streaming.Reconciler.Storage.{storage_size_changed}
use kind_music_streaming.Reconciler.Compare.{autoscaler_needs_update}
use kind_music_streaming.Reconciler.Compare.Agreement.{needs_update_settled}
use kind_music_streaming.Reconciler.App.{app_key}
use kind_music_streaming.Reconciler.Secret.{replication_enabled}
use kind_music_streaming.Reconciler.Quiet.{Answers, OnlyReads}
use kind_music_streaming.Reconciler.Quiescence.{SetAsDesired}
use kind_music_streaming.Status.Manager.{with_database, database_status}
use kind_music_streaming.Controller.{
  database_enabled, database_ha_enabled, reconcile_objects, finish,
}
use kind_music_streaming.Controller.Rounds.{last_subject}
use kind_music_streaming.Controller.Rounds.Quiescence.{AsDesired, reconcile_objects-OnlyReads}
use kind_music_streaming.Tests.Memory.{Cluster, objects, find, get, not_found, memory}
use kind_music_streaming.Tests.Server.{memory-Lawful}
use kind_music_streaming.Tests.Built.{
  app_set, app_set_built, master_set, replica_set, desired_autoscaler, desired_autoscaler_built,
}
use kind_music_streaming.Tests.Examples.{library, radio, cluster, meta}

pub get_of_find :
    (k : Kind) (key : NamespacedName) (w : Cluster) (o : Obj k)
    → find k key (objects k w) ≡ some o
    → get k key w ≡ (ok o, w)
unfolding get
get_of_find k key w o e = rw (get, e)

pub get_of_none :
    (k : Kind) (key : NamespacedName) (w : Cluster)
    → find k key (objects k w) ≡ none
    → get k key w ≡ (err not_found, w)
unfolding get
get_of_none k key w e = rw (get, e)

pub memory-Answers : Answers memory memory-Lawful
memory-Answers = record {
  finds = λ k key w o held. elim (Option-cases (find k key (objects k w))) [
    | inl nothing ↦ absurd (
        Option.none-ne-some o (
          sym (memory-Lawful.get_missing k key w w not_found (get_of_none k key w nothing) refl)
          ∙ held))
    | inr (o', found) ↦
        let read = get_of_find k key w o' found in
        let same =
          Option.some-injective o' o (sym (memory-Lawful.get_found k key w w o' read) ∙ held) in
        ap (λ r. r.0) read ∙ ap ok same
  ];
  misses = λ k key w gone. elim (Option-cases (find k key (objects k w))) [
    | inl nothing ↦ (not_found, ap (λ r. r.0) (get_of_none k key w nothing), refl)
    | inr (o', found) ↦ absurd (
        Option.some-ne-none o'
          (sym (memory-Lawful.get_found k key w w o' (get_of_find k key w o' found)) ∙ gone))
  ];
}

abbrev complete : Secret
complete = record {
  metadata = record (meta "radio-db-replication") { labels = [] };
  type = "Opaque";
  contents = ("username", codes "repl") ∷ ("password", codes "secret") ∷ [];
}

-- The status that a round gives to "radio" before it turns to the database.
abbrev radio' : MusicService
radio' = with_database radio (database_status radio)

unfoldable held : Cluster
held = record cluster {
  sets = app_set ∷ master_set ∷ replica_set ∷ [];
  services =
      build_app_service library radio
      ∷ build_database_master_service library radio
      ∷ build_database_read_service library radio
      ∷ [];
  autoscalers = desired_autoscaler ∷ [];
  secrets = complete ∷ [];
}

held_there :
    (k : Kind) (key : NamespacedName) (o : Obj k)
    → find k key (objects k held) ≡ some o
    → memory-Lawful.view held k key ≡ some o
held_there k key o e = memory-Lawful.get_found k key held held o (get_of_find k key held o e)

app_as_desired :
    SetAsDesired (memory-Lawful.view held) (app_key radio) (build_app_stateful_set library radio)
unfolding app_set held storage_size_changed find app_key
app_as_desired = record {
  set = app_set;
  desired = app_set;
  built = app_set_built;
  there = held_there stateful_set (app_key radio) app_set refl;
  same_size = refl;
  same_pods = needs_update_settled app_set app_set (pos 3) refl;
}

master_as_desired :
    SetAsDesired
      (memory-Lawful.view held)
      (name_of radio' "-db-master")
      (build_database_master_stateful_set library radio')
unfolding app_set master_set held storage_size_changed find name_of
    build_database_master_stateful_set
master_as_desired = record {
  set = master_set;
  desired = master_set;
  built = refl;
  there = held_there stateful_set (name_of radio' "-db-master") master_set refl;
  same_size = refl;
  same_pods = needs_update_settled master_set master_set (pos 1) refl;
}

replica_as_desired :
    SetAsDesired
      (memory-Lawful.view held)
      (name_of radio' "-db-replica")
      (build_database_replica_stateful_set library radio')
unfolding app_set master_set replica_set held storage_size_changed find name_of
    build_database_replica_stateful_set
replica_as_desired = record {
  set = replica_set;
  desired = replica_set;
  built = refl;
  there = held_there stateful_set (name_of radio' "-db-replica") replica_set refl;
  same_size = refl;
  same_pods = needs_update_settled replica_set replica_set (pos 2) refl;
}

held-AsDesired : AsDesired library (memory-Lawful.view held) radio
unfolding database_enabled database_ha_enabled held find app_key name_of autoscaler_needs_update
    desired_autoscaler build_app_service build_database_master_service build_database_read_service
    replication_enabled lookup
held-AsDesired = record {
  service_there = (build_app_service library radio, held_there service (app_key radio) _ refl);
  set = app_as_desired;
  autoscaler = record {
    hpa = desired_autoscaler;
    desired = desired_autoscaler;
    built = desired_autoscaler_built;
    there = held_there autoscaler (name_of radio "-autoscaler") _ refl;
    same = refl;
  };
  database = (
    record {
      master = master_as_desired;
      master_service = (
        build_database_master_service library radio,
        held_there service (name_of radio' "-db-master") _ refl,
      );
      replica = replica_as_desired;
      replication_secret = record {
        secret_there = complete;
        there = held_there secret (name_of radio' "-db-replication") _ refl;
        has_username = λ e. ground arith;
        has_password = λ e. ground arith;
      };
      read_service = (
        build_database_read_service library radio,
        held_there service (name_of radio' "-db-read") _ refl,
      );
    },
    tt,
  );
}

reconcile_objects-OnlyReads_example :
    (w : Cluster) × (reconcile_objects library memory radio held
      ≡ finish library memory (last_subject library memory radio) w)
    × OnlyReads memory held w
reconcile_objects-OnlyReads_example =
    reconcile_objects-OnlyReads library memory memory-Lawful memory-Answers radio held
      held-AsDesired
