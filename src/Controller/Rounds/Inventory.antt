-- ===== src/Controller/Rounds/Inventory.antt =====
-- What a round is for: the objects that a MusicService calls for.
pub mod Runs
pub mod Objects
pub mod Replicas
pub mod Complete
use kind_music_streaming.Prelude.{
  String, ◌≡◌, ◌≢◌, refl, Bool, true, false, not, ◌&&◌, ◌⊎◌, inl, inr, Option, none, some, List, [],
  ◌∷◌, ◌++◌, All, Bool-cases, arith, if◌then◌else◌,
}
use kind_music_streaming.Prelude.Int.{pos, eqb_ℤ}
use kind_music_streaming.Kube.{NamespacedName}
use kind_music_streaming.Api.{DatabaseSpec, MusicServiceStatus, MusicService}
use kind_music_streaming.Exec.{ok}
use kind_music_streaming.Exec.Keeps.{Keeps}
use kind_music_streaming.Exec.Yields.{Yields}
use kind_music_streaming.Platform.{Kind, stateful_set, service, autoscaler, secret, Library, Client}
use kind_music_streaming.Platform.Lawful.{Lawful}
use kind_music_streaming.Builder.{name_of}
use kind_music_streaming.Reconciler.App.{app_key}
use kind_music_streaming.Reconciler.Database
use kind_music_streaming.Reconciler.Database.{database_storage_spec}
use kind_music_streaming.Reconciler.Secret.{replication_enabled}
use kind_music_streaming.Reconciler.Authority.{
  Grants, Recreates, reconcile_service-Keeps, reconcile_stateful_set-Keeps,
  reconcile_autoscaler-Keeps, reconcile_galera-Keeps, reconcile_galera_services-Keeps,
  reconcile_master-Keeps, reconcile_replicas-Keeps, reconcile_services-Keeps,
  reconcile_db_autoscaler-Keeps,
}
use kind_music_streaming.Reconciler.Presence.{Present, Present-Grants}
use kind_music_streaming.Reconciler.Inventory.{
  reconcile_service-Present, reconcile_stateful_set-Present, reconcile_autoscaler-Present,
  reconcile_master-Present, reconcile_galera-Present, reconcile_services-Present,
  galera_service-Present, galera_primary-Present, galera_read-Present, secret-Present,
  reconcile_replicas-Present, reconcile_db_autoscaler-Present,
}
use kind_music_streaming.Status.Manager.{with_status, with_database, database_status}
use kind_music_streaming.Controller.{database_enabled, database_ha_enabled}
use kind_music_streaming.Controller.Authority.{with_status-Grants}
use kind_music_streaming.Controller.Rounds.{
  Step, app_steps, database_steps, steps, Succeed, none_left, next,
}

-- An object: its kind and its key.
abbrev pub Item : Type 0
Item = Kind × NamespacedName

unfoldable pub is_given : {A : Type 0} → Option A → Bool
is_given none = false
is_given (some _) = true

-- The items where a condition holds.
unfoldable pub only_if : Bool → List Item → List Item
only_if condition items = if condition then items else []

unfoldable pub app_inventory : MusicService → List Item
unfolding is_given only_if
app_inventory ms =
    (service, app_key ms)
    ∷ (stateful_set, app_key ms)
    ∷ only_if (is_given ms.spec.autoscaling) ((autoscaler, name_of ms "-autoscaler") ∷ [])

unfoldable pub galera_inventory : MusicService → List Item
galera_inventory ms =
    (stateful_set, name_of ms "-db-galera")
    ∷ (service, name_of ms "-db-galera")
    ∷ (service, name_of ms "-db-master")
    ∷ (service, name_of ms "-db-read")
    ∷ []

unfoldable pub replication_inventory : MusicService → Bool → List Item
unfolding only_if
replication_inventory ms replicated =
    (stateful_set, name_of ms "-db-master")
    ∷ (service, name_of ms "-db-master")
    ∷ only_if replicated (
        (stateful_set, name_of ms "-db-replica")
        ∷ only_if (replication_enabled ms) ((secret, name_of ms "-db-replication") ∷ []))

unfoldable pub database_inventory : MusicService → Option DatabaseSpec → List Item
unfolding galera_inventory replication_inventory only_if is_given
database_inventory ms none = []
database_inventory ms (some db) =
    let replicated = not (eqb_ℤ db.replicas (pos 0)) in
    (if database_ha_enabled ms then galera_inventory ms else replication_inventory ms replicated)
    ++ only_if (replicated && is_given db.autoscaling)
        ((autoscaler, name_of ms "-db-replica-autoscaler") ∷ [])

-- The objects of the spec that a round without a failed step guarantees. The service
-- "{name}-db-read" of a replicated database, which the spec calls for too, is not among them: an
-- error that keeps it from being read is passed over, and it is then not created.
unfoldable pub inventory : MusicService → List Item
unfolding app_inventory database_inventory only_if
inventory ms =
    app_inventory ms ++ only_if (database_enabled ms) (database_inventory ms ms.spec.database)

pub append-All :
    {A : Type 0} (P : A → Type 0) (xs ys : List A) → All P xs → All P ys → All P (xs ++ ys)
append-All P [] ys px py = py
append-All P (x ∷ xs) ys (p, px) py = (p, append-All P xs ys px py)

pub only_if-All :
    (P : Item → Type 0) (b : Bool) (items : List Item)
    → (b ≡ true → All P items)
    → All P (only_if b items)
unfolding only_if
only_if-All P true items h = h refl
only_if-All P false items h = tt

pub given-some : {A : Type 0} (o : Option A) → is_given o ≡ true → o ≢ none
unfolding is_given
given-some none h = absurd (ground arith)
given-some (some a) h = λ e. ground arith

pub not-true : (b : Bool) → not b ≡ true → b ≡ false
not-true false h = refl
not-true true h = absurd (ground arith)

pub and-true : (a b : Bool) → (a && b) ≡ true → (a ≡ true) × (b ≡ true)
and-true true b h = (refl, h)
and-true false b h = absurd (ground arith)
