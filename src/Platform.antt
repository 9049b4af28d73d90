-- ===== src/Platform.antt =====
-- What the operator takes from other packages: the API server behind controller-runtime's client,
-- its recorder of events, the clock, the random source, and pure functions of apimachinery.
pub mod Lawful
use kind_music_streaming.Prelude.{ℕ, String, Bool, Option, none, some, List}
use kind_music_streaming.Kube.{
  Time, GroupVersionKind, OwnerReference, ObjectMeta, NamespacedName, Quantity, Service, Secret,
  PersistentVolumeClaim, StatefulSet, HorizontalPodAutoscaler,
}
use kind_music_streaming.Api.{MusicService}
use kind_music_streaming.Exec.{Exec, Outcome, ok, panic}

-- The kinds of objects that the operator reads and writes.
pub data Kind : Type 0 where
  stateful_set service autoscaler secret claim music_service : Kind

abbrev pub Obj : Kind → Type 0
Obj stateful_set = StatefulSet
Obj service = Service
Obj autoscaler = HorizontalPodAutoscaler
Obj secret = Secret
Obj claim = PersistentVolumeClaim
Obj music_service = MusicService

-- Pure functions of apimachinery and controllerutil.
pub record Library : Type 0 where
  -- `resource.ParseQuantity`, with `none` for its error
  pub parse_quantity : String → Option Quantity
  -- `metav1.NewControllerRef`
  pub new_controller_ref : ObjectMeta → GroupVersionKind → OwnerReference
  -- `controllerutil`'s functions read and write the object's list of finalizers only
  pub contains_finalizer : List String → String → Bool
  pub add_finalizer : List String → String → List String
  pub remove_finalizer : List String → String → List String

-- `client.Client`, `record.EventRecorder`, `time.Now` and `crypto/rand`, over an unknown state.
-- `update` and `update_status` decode the server's response into the object: they return it.
pub record Client : Type 1 where
  pub World : Type 0
  pub get : (k : Kind) → NamespacedName → Exec World (Obj k)
  pub create : (k : Kind) → Obj k → Exec World (Unit {0})
  pub update : (k : Kind) → Obj k → Exec World (Obj k)
  pub delete : (k : Kind) → Obj k → Exec World (Unit {0})
  -- the volume claims of a namespace
  pub list : String → Exec World (List PersistentVolumeClaim)
  pub update_status : MusicService → Exec World MusicService
  pub event : MusicService → String → String → String → Exec World (Unit {0})
  pub now : Exec World Time
  -- `rand.Read` of so many bytes
  pub rand_read : ℕ → Exec World (List ℕ)

-- `resource.MustParse`, which panics where `ParseQuantity` fails
unfoldable pub must_parse : Library → String → Outcome Quantity
must_parse lib s = elim (lib.parse_quantity s) [ none ↦ panic | some q ↦ ok q ]
