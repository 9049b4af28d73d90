-- ===== src/Tests/Server.antt =====
-- The server in memory is lawful.
use kind_music_streaming.Prelude.{
  ◌+◌, String, ◌≡◌, ◌≢◌, refl, ap, Option, none, some, List, [], ◌∷◌, arith, ◌⊎◌, inl, inr,
}
use kind_music_streaming.Kube.{NamespacedName, PersistentVolumeClaim, HorizontalPodAutoscaler}
use kind_music_streaming.Exec.{Error, ok, err}
use kind_music_streaming.Platform.{
  Kind, stateful_set, service, autoscaler, secret, claim, music_service, Obj,
}
use kind_music_streaming.Platform.Lawful.{Lawful, IsLeaving, key_of}
use kind_music_streaming.Tests.Keys.{same_key_iff, objects-with, find-remove_self, find-remove_ne}
use kind_music_streaming.Tests.Memory.{
  Cluster, objects, with_objects, find, remove, get, put, create, update, delete, list_claims,
  memory,
}

unfoldable pub view : Cluster → (k : Kind) → NamespacedName → Option (Obj k)
view w k key = find k key (objects k w)

pub get-same : (k : Kind) (key : NamespacedName) (w : Cluster) → (get k key w).1 ≡ w
unfolding get
get-same k key w = ground arith

get-found :
    (k : Kind) (key : NamespacedName) (w w' : Cluster) (o : Obj k)
    → get k key w ≡ (ok o, w')
    → view w k key ≡ some o
unfolding get view
get-found k key w w' o e = ground arith

get-missing :
    (k : Kind) (key : NamespacedName) (w w' : Cluster) (x : Error)
    → get k key w ≡ (err x, w')
    → view w k key ≡ none
unfolding get view
get-missing k key w w' x e = ground arith

pub view-put : (k : Kind) (o : Obj k) (w : Cluster) → view (put k o w) k (key_of k o) ≡ some o
unfolding view put find
view-put k o w = rw objects-with (ground (arith, same_key_iff (key_of k o) (key_of k o)))

create-stores :
    (k : Kind) (o : Obj k) (w w' : Cluster)
    → create k o w ≡ (ok tt, w')
    → view w' k (key_of k o) ≡ some o
unfolding create
create-stores k o w w' e = ground (arith, view-put k o w)

update-stores :
    (k : Kind) (o o' : Obj k) (w w' : Cluster)
    → update k o w ≡ (ok o', w')
    → view w' k (key_of k o) ≡ some o
unfolding update
update-stores k o o' w w' e = ground (arith, view-put k o w)

update-frame :
    (k : Kind) (o : Obj k) (w : Cluster) (key : NamespacedName)
    → key ≢ key_of k o
    → view (update k o w).1 k key ≡ view w k key
unfolding update put view find
update-frame k o w key other = ground (
  arith,
  objects-with k (o ∷ remove k (key_of k o) (objects k w)) w,
  same_key_iff (key_of k o) key,
  find-remove_ne k (key_of k o) key (objects k w) other,
)

-- A successful deletion removes the object's key.
delete-gone :
    (k : Kind) (o : Obj k) (w w' : Cluster)
    → delete k o w ≡ (ok tt, w')
    → view w' k (key_of k o) ≡ none
unfolding delete view
delete-gone k o w w' e = ground (
  arith,
  objects-with k (remove k (key_of k o) (objects k w)) (record w { deletions = w.deletions + 1 }),
  find-remove_self k (key_of k o) (objects k w),
)

delete-leaves :
    (k : Kind) (o : Obj k) (w w' : Cluster)
    → delete k o w ≡ (ok tt, w')
    → IsLeaving k (view w' k (key_of k o))
delete-leaves k o w w' e = rw (delete-gone k o w w' e) tt

delete-frame :
    (k : Kind) (o : Obj k) (w : Cluster) (key : NamespacedName)
    → key ≢ key_of k o
    → view (delete k o w).1 k key ≡ view w k key
unfolding delete view
delete-frame k o w key h = ground (
  arith,
  objects-with k (remove k (key_of k o) (objects k w)) (record w { deletions = w.deletions + 1 }),
  find-remove_ne k (key_of k o) key (objects k w) h,
)

pub find-keyed :
    (k : Kind) (key : NamespacedName) (l : List (Obj k)) (o : Obj k)
    → find k key l ≡ some o
    → key_of k o ≡ key
unfolding find
find-keyed k key [] o e = absurd (ground arith)
find-keyed k key (x ∷ l) o e = ground (arith, same_key_iff (key_of k x) key, find-keyed k key l o)

view-keyed :
    (w : Cluster) (k : Kind) (key : NamespacedName) (o : Obj k)
    → view w k key ≡ some o
    → key_of k o ≡ key
unfolding view
view-keyed w k key o e = find-keyed k key (objects k w) o e

update-apart :
    (pvc : PersistentVolumeClaim) (w : Cluster) (key : NamespacedName)
    → view (update claim pvc w).1 stateful_set key ≡ view w stateful_set key
unfolding update put view
update-apart pvc w key = ground arith

pub objects_apart :
    (k other : Kind) (l : List (Obj k)) (w : Cluster)
    → (k ≡ other) ⊎ (objects other (with_objects k l w) ≡ objects other w)
objects_apart stateful_set stateful_set l w = inl refl
objects_apart stateful_set _ l w = inr refl
objects_apart service service l w = inl refl
objects_apart service _ l w = inr refl
objects_apart autoscaler autoscaler l w = inl refl
objects_apart autoscaler _ l w = inr refl
objects_apart secret secret l w = inl refl
objects_apart secret _ l w = inr refl
objects_apart claim claim l w = inl refl
objects_apart claim _ l w = inr refl
objects_apart music_service music_service l w = inl refl
objects_apart music_service _ l w = inr refl

find-put :
    (k : Kind) (o : Obj k) (l : List (Obj k)) (key : NamespacedName)
    → find k key l ≢ none
    → find k key (o ∷ remove k (key_of k o) l) ≢ none
unfolding find
find-put k o l key there =
    ground (arith, same_key_iff (key_of k o) key, find-remove_ne k (key_of k o) key l)

pub put-stays :
    (k : Kind) (o : Obj k) (w : Cluster) (other : Kind) (key : NamespacedName)
    → view w other key ≢ none
    → view (put k o w) other key ≢ none
unfolding put view
put-stays k o w other key there =
    elim (objects_apart k other (o ∷ remove k (key_of k o) (objects k w)) w) [
      | inr apart ↦ rw apart there
      | inl same ↦
          rw (← same) (rw objects-with (find-put k o (objects k w) key (rw (← same) at there)))
    ]

create-stays :
    (k : Kind) (o : Obj k) (w : Cluster) (other : Kind) (key : NamespacedName)
    → view w other key ≢ none
    → view (create k o w).1 other key ≢ none
unfolding create
create-stays k o w other key there = ground (arith, put-stays k o w other key)

update-stays :
    (k : Kind) (o : Obj k) (w : Cluster) (other : Kind) (key : NamespacedName)
    → view w other key ≢ none
    → view (update k o w).1 other key ≢ none
unfolding update
update-stays k o w other key there = ground (arith, put-stays k o w other key)

autoscalers-apart :
    (hpa : HorizontalPodAutoscaler) (w : Cluster) (k : Kind) (key : NamespacedName)
    → k ≢ autoscaler
    → view (delete autoscaler hpa w).1 k key ≡ view w k key
unfolding delete view
autoscalers-apart hpa w stateful_set key other = ground arith
autoscalers-apart hpa w autoscaler key other = absurd (other refl)
autoscalers-apart hpa w _ key other = ground arith

list-same : (namespace : String) (w : Cluster) → (list_claims namespace w).1 ≡ w
unfolding list_claims
list-same namespace w = refl

pub memory-Lawful : Lawful memory
memory-Lawful = record {
  view = view;
  stored = λ w k o. o;
  get_same = λ k key w. ap view (get-same k key w);
  get_found = get-found;
  get_missing = λ k key w w' e run _. get-missing k key w w' e run;
  keyed = view-keyed;
  list_same = λ namespace w. ap view (list-same namespace w);
  create_stores = create-stores;
  update_stores = update-stores;
  update_frame = update-frame;
  stored_requests = λ w pvc. refl;
  delete_leaves = delete-leaves;
  delete_frame = delete-frame;
  claims_apart = update-apart;
  autoscalers_apart = autoscalers-apart;
  create_stays = create-stays;
  update_stays = λ k o w other key _. update-stays k o w other key;
  random_same = λ n w. refl;
}
