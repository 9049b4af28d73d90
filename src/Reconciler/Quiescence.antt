-- ===== src/Reconciler/Quiescence.antt =====
-- Each reconciler where the server already holds what it would bring about.
pub mod Databases
use kind_music_streaming.Prelude.{
  ◌<>◌, String, ◌≡◌, ◌≢◌, refl, ap, Bool, true, false, not, Bool-cases, inl, inr, Option, none,
  some, lookup, deep_equal, if◌then◌else◌, arith,
}
use kind_music_streaming.Prelude.Int.{pos, eqb_ℤ, ltb_ℤ}
use kind_music_streaming.Kube.{
  NamespacedName, StatefulSet, HorizontalPodAutoscaler, Secret, autoscaler_spec_discrete,
}
use kind_music_streaming.Api.{StorageSpec, AutoscalingSpec, DatabaseSpec, MusicService}
use kind_music_streaming.Exec.{Error, Outcome, ok, Exec, pure, lift, deref, ◌>>=◌, ◌>>◌}
use kind_music_streaming.Platform.{
  Kind, stateful_set, service, autoscaler, secret, Obj, Library, Client,
}
use kind_music_streaming.Platform.Lawful.{Lawful}
use kind_music_streaming.Builder.{
  name_of, build_app_service, build_app_stateful_set, build_autoscaler,
  build_database_galera_stateful_set, build_database_master_stateful_set,
  build_database_replica_stateful_set, build_database_replica_autoscaler,
}
use kind_music_streaming.Reconciler.Storage.{storage_size_changed}
use kind_music_streaming.Reconciler.Compare.{stateful_set_needs_update, autoscaler_needs_update}
use kind_music_streaming.Reconciler.Ensure.{ensure, roll_out, update_stateful_set, reconcile_set}
use kind_music_streaming.Reconciler.Secret.{
  replication_enabled, complete_data, complete_secret, secret_for, ensure_replication_secret,
}
use kind_music_streaming.Reconciler.Quiet.{
  View, Answers, Quiet, Quiet-pure, Quiet-lift, Quiet-bind, Quiet-found, Quiet-missing,
}
use kind_music_streaming.Reconciler.App
use kind_music_streaming.Reconciler.App.{app_key}
use kind_music_streaming.Reconciler.Database
use kind_music_streaming.Reconciler.Database.{database_storage_spec}

-- An object of this kind stands at the key.
abbrev pub IsThere : View → Kind → NamespacedName → Type 0
IsThere V k key = (o : Obj k) × (V k key ≡ some o)

-- `P`, under a condition of the spec.
abbrev pub When : Bool → Type 0 → Type 0
When true P = P
When false P = Unit

pub Applies : {P : Type 0} (b : Bool) → b ≡ true → When b P → P
Applies true e p = p
Applies false e p = absurd (ground arith)

equal_specs : (b : Bool) → not b ≡ false → b ≡ true
equal_specs true e = refl
equal_specs false e = absurd (ground arith)

-- A StatefulSet with the storage size and the pods of the one that the builder builds.
pub record SetAsDesired (V : View) (key : NamespacedName) (build : Outcome StatefulSet)
    : Type 0 where
  pub set : StatefulSet
  pub desired : StatefulSet
  pub built : build ≡ ok desired
  pub there : V stateful_set key ≡ some set
  pub same_size : storage_size_changed set desired ≡ false
  pub same_pods : stateful_set_needs_update set desired ≡ ok false

-- An autoscaler that does not differ from the one that the builder builds, by the test `differs`.
pub record AutoscalerAsDesired (V : View) (key : NamespacedName)
    (build : Outcome HorizontalPodAutoscaler)
    (differs : HorizontalPodAutoscaler → HorizontalPodAutoscaler → Bool) : Type 0 where
  pub hpa : HorizontalPodAutoscaler
  pub desired : HorizontalPodAutoscaler
  pub built : build ≡ ok desired
  pub there : V autoscaler key ≡ some hpa
  pub same : differs hpa desired ≡ false

-- A secret with a user and a password.
pub record SecretAsDesired (V : View) (key : NamespacedName) : Type 0 where
  pub secret_there : Secret
  pub there : V secret key ≡ some secret_there
  pub has_username : lookup "username" secret_there.contents ≢ none
  pub has_password : lookup "password" secret_there.contents ≢ none

abbrev pub specs_differ : HorizontalPodAutoscaler → HorizontalPodAutoscaler → Bool
specs_differ hpa desired = not (deep_equal autoscaler_spec_discrete hpa.spec desired.spec)

module _ (lib : Library) (V : View) (ms : MusicService) where
  -- Without autoscaling in the spec there is no autoscaler.
  abbrev pub AppAutoscaler : Option AutoscalingSpec → Type 0
  AppAutoscaler none = V autoscaler (name_of ms "-autoscaler") ≡ none
  AppAutoscaler (some _) =
      AutoscalerAsDesired V (name_of ms "-autoscaler") (build_autoscaler lib ms)
        autoscaler_needs_update

  abbrev pub ReplicaAutoscaler : DatabaseSpec → Option AutoscalingSpec → Type 0
  ReplicaAutoscaler db none = Unit
  ReplicaAutoscaler db (some _) = When (not (eqb_ℤ db.replicas (pos 0))) (
      AutoscalerAsDesired V (name_of ms "-db-replica-autoscaler")
        (build_database_replica_autoscaler lib ms) specs_differ)

module _ (c : Client) (law : Lawful c) (answers : Answers c law) {V : View} where
  pub ensure-Quiet :
      (k : Kind) (key : NamespacedName) (build : Outcome (Obj k))
      → IsThere V k key
      → Quiet c law V (ensure c k key build) tt
  unfolding ensure
  ensure-Quiet k key build (o, there) =
      Quiet-found c law answers k key _ _ o there (Quiet-pure c law tt)

  roll_out-Quiet :
      (set desired : StatefulSet)
      → stateful_set_needs_update set desired ≡ ok false
      → Quiet c law V (roll_out c set desired) tt
  unfolding roll_out
  roll_out-Quiet set desired same =
      Quiet-bind c law _ false (Quiet-lift c law _ false same) (Quiet-pure c law tt)

  update_stateful_set-Quiet :
      (storage : StorageSpec) (a b : String) (set desired : StatefulSet)
      → storage_size_changed set desired ≡ false
      → stateful_set_needs_update set desired ≡ ok false
      → Quiet c law V (update_stateful_set c storage a b set desired) tt
  unfolding update_stateful_set
  update_stateful_set-Quiet storage a b set desired size pods =
      rw size (roll_out-Quiet set desired pods)

  pub reconcile_set-Quiet :
      (key : NamespacedName) (build : Outcome StatefulSet) (storage : StorageSpec) (a b : String)
      → SetAsDesired V key build
      → Quiet c law V (reconcile_set c key build storage a b) tt
  unfolding reconcile_set
  reconcile_set-Quiet key build storage a b d =
      Quiet-found c law answers stateful_set key _ _ d.set d.there (
        Quiet-bind c law _ d.desired (Quiet-lift c law build d.desired d.built)
          (update_stateful_set-Quiet storage a b d.set d.desired d.same_size d.same_pods))

module _ (lib : Library) (c : Client) (law : Lawful c) (answers : Answers c law) {V : View} where
  pub reconcile_service-Quiet :
      (ms : MusicService)
      → IsThere V service (app_key ms)
      → Quiet c law V (App.reconcile_service lib c ms) tt
  unfolding App.reconcile_service
  reconcile_service-Quiet ms there =
      ensure-Quiet c law answers service (app_key ms) (ok (build_app_service lib ms)) there

  autoscale-Quiet :
      (ms : MusicService) (config : Option AutoscalingSpec)
      → AppAutoscaler lib V ms config
      → Quiet c law V (App.autoscale lib c ms config) tt
  unfolding App.autoscale App.delete_autoscaler_if_exists App.update_autoscaler
  autoscale-Quiet ms none gone =
      Quiet-missing c law answers autoscaler (name_of ms "-autoscaler") _ _ gone
        λ e not_found. rw not_found (Quiet-pure c law tt)
  autoscale-Quiet ms (some config) d =
      Quiet-found c law answers autoscaler (name_of ms "-autoscaler") _ _ d.hpa d.there (
        Quiet-bind c law _ d.desired (Quiet-lift c law _ d.desired d.built)
          (rw d.same (Quiet-pure c law tt)))

  update_replica_autoscaler-Quiet :
      (hpa desired : HorizontalPodAutoscaler)
      → specs_differ hpa desired ≡ false
      → Quiet c law V (Database.update_replica_autoscaler lib c hpa desired) tt
  unfolding Database.update_replica_autoscaler
  update_replica_autoscaler-Quiet hpa desired same =
      rw (equal_specs (deep_equal autoscaler_spec_discrete hpa.spec desired.spec) same)
        (Quiet-pure c law tt)

  replica_autoscaler-Quiet :
      (ms : MusicService) (db : DatabaseSpec) (config : Option AutoscalingSpec)
      → ReplicaAutoscaler lib V ms db config
      → Quiet c law V (Database.replica_autoscaler lib c ms db config) tt
  unfolding Database.replica_autoscaler
  replica_autoscaler-Quiet ms db none d = Quiet-pure c law tt
  replica_autoscaler-Quiet ms db (some config) d = elim (Bool-cases (eqb_ℤ db.replicas (pos 0))) [
    | inl zero ↦ rw zero (Quiet-pure c law tt)
    | inr more ↦
        let d' = Applies (not (eqb_ℤ db.replicas (pos 0))) (ap not more) d in
        rw more (
          Quiet-found c law answers autoscaler (name_of ms "-db-replica-autoscaler") _ _ d'.hpa
            d'.there
            (Quiet-bind c law _ d'.desired (Quiet-lift c law _ d'.desired d'.built)
              (update_replica_autoscaler-Quiet d'.hpa d'.desired d'.same)))
  ]

  pub reconcile_db_autoscaler-Quiet :
      (ms : MusicService) (db : DatabaseSpec)
      → ms.spec.database ≡ some db
      → ReplicaAutoscaler lib V ms db db.autoscaling
      → Quiet c law V (Database.reconcile_autoscaler lib c ms) tt
  unfolding Database.reconcile_autoscaler
  reconcile_db_autoscaler-Quiet ms db given d =
      Quiet-bind c law _ db (Quiet-lift c law _ db (ap deref given))
        (replica_autoscaler-Quiet ms db db.autoscaling d)

  pub reconcile_stateful_set-Quiet :
      (ms : MusicService)
      → SetAsDesired V (app_key ms) (build_app_stateful_set lib ms)
      → Quiet c law V (App.reconcile_stateful_set lib c ms) tt
  unfolding App.reconcile_stateful_set
  reconcile_stateful_set-Quiet ms d =
      reconcile_set-Quiet c law answers (app_key ms) (build_app_stateful_set lib ms) ms.spec.storage
        "music-data" ms.metadata.name d

  pub reconcile_autoscaler-Quiet :
      (ms : MusicService)
      → AppAutoscaler lib V ms ms.spec.autoscaling
      → Quiet c law V (App.reconcile_autoscaler lib c ms) tt
  unfolding App.reconcile_autoscaler
  reconcile_autoscaler-Quiet ms d = autoscale-Quiet ms ms.spec.autoscaling d
