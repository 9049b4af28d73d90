-- ===== src/Tests/Memory.antt =====
-- A server in memory: lists of objects, a clock that ticks, and a log of events and deletions.
use kind_music_streaming.Prelude.{
  ℕ, zero, suc, ◌+◌, String, Bool, ◌&&◌, Option, none, some, List, [], ◌∷◌, filter, ◌===◌,
  if◌then◌else◌, true, false,
}
use kind_music_streaming.Kube.{
  NamespacedName, PersistentVolumeClaim, StatefulSet, Service, HorizontalPodAutoscaler, Secret,
}
use kind_music_streaming.Api.{MusicService}
use kind_music_streaming.Exec.{Error, ok, err, Exec}
use kind_music_streaming.Platform.{
  Kind, stateful_set, service, autoscaler, secret, claim, music_service, Obj, Client,
}
use kind_music_streaming.Platform.Lawful.{key_of}

pub record Cluster : Type 0 where
  pub sets : List StatefulSet
  pub services : List Service
  pub autoscalers : List HorizontalPodAutoscaler
  pub secrets : List Secret
  pub claims : List PersistentVolumeClaim
  pub music_services : List MusicService
  pub clock : ℕ
  pub events : List String
  pub deletions : ℕ

abbrev pub objects : (k : Kind) → Cluster → List (Obj k)
objects stateful_set w = w.sets
objects service w = w.services
objects autoscaler w = w.autoscalers
objects secret w = w.secrets
objects claim w = w.claims
objects music_service w = w.music_services

abbrev pub with_objects : (k : Kind) → List (Obj k) → Cluster → Cluster
with_objects stateful_set l w = record w { sets = l }
with_objects service l w = record w { services = l }
with_objects autoscaler l w = record w { autoscalers = l }
with_objects secret l w = record w { secrets = l }
with_objects claim l w = record w { claims = l }
with_objects music_service l w = record w { music_services = l }

abbrev pub same_key : NamespacedName → NamespacedName → Bool
same_key a b = a.name === b.name && a.namespace === b.namespace

unfoldable pub find : (k : Kind) → NamespacedName → List (Obj k) → Option (Obj k)
find k key [] = none
find k key (o ∷ rest) = if same_key (key_of k o) key then some o else find k key rest

unfoldable pub remove : (k : Kind) → NamespacedName → List (Obj k) → List (Obj k)
remove k key [] = []
remove k key (o ∷ rest) =
    let more = remove k key rest in if same_key (key_of k o) key then more else o ∷ more

abbrev pub not_found : Error
not_found = record { is_not_found = true; message = "not found" }

abbrev pub already_exists : Error
already_exists = record { is_not_found = false; message = "already exists" }

unfoldable pub get : (k : Kind) → NamespacedName → Exec Cluster (Obj k)
unfolding find
get k key w = elim (find k key (objects k w)) [ none ↦ (err not_found, w) | some o ↦ (ok o, w) ]

-- Writes put the object first.
unfoldable pub put : (k : Kind) → Obj k → Cluster → Cluster
unfolding remove
put k o w = with_objects k (o ∷ remove k (key_of k o) (objects k w)) w

unfoldable pub create : (k : Kind) → Obj k → Exec Cluster (Unit {0})
unfolding find put
create k o w = elim (find k (key_of k o) (objects k w)) [
  | none ↦ (ok tt, put k o w)
  | some _ ↦ (err already_exists, w)
]

unfoldable pub update : (k : Kind) → Obj k → Exec Cluster (Obj k)
unfolding find put
update k o w = elim (find k (key_of k o) (objects k w)) [
  | none ↦ (err not_found, w)
  | some _ ↦ (ok o, put k o w)
]

unfoldable pub delete : (k : Kind) → Obj k → Exec Cluster (Unit {0})
unfolding find remove
delete k o w = elim (find k (key_of k o) (objects k w)) [
  | none ↦ (err not_found, w)
  | some _ ↦ (
    ok tt,
    with_objects k (remove k (key_of k o) (objects k w)) (record w { deletions = w.deletions + 1 }),
  )
]

abbrev pub replicate : ℕ → ℕ → List ℕ
replicate zero a = []
replicate (suc n) a = a ∷ replicate n a

unfoldable pub list_claims : String → Exec Cluster (List PersistentVolumeClaim)
unfolding filter
list_claims namespace w =
    (ok (filter (λ (p : PersistentVolumeClaim). p.metadata.namespace === namespace) w.claims), w)

abbrev pub memory : Client
memory = record {
  World = Cluster;
  get = get;
  create = create;
  update = update;
  delete = delete;
  list = list_claims;
  update_status = update music_service;
  event = λ ms type reason message w. (ok tt, record w { events = reason ∷ w.events });
  now = λ w. (ok w.clock, record w { clock = w.clock + 1 });
  rand_read = λ n w. (ok (replicate n 171), w);
}
