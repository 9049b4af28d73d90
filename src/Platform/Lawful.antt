-- ===== src/Platform/Lawful.antt =====
-- What the operator relies on of an API server: a contents that reads show and leave alone, and
-- that a successful write changes at one key.
use kind_music_streaming.Prelude.{ℕ, String, ◌≡◌, ◌≢◌, true, Option, none, some}
use kind_music_streaming.Kube.{
  ObjectMeta, NamespacedName, PersistentVolumeClaim, HorizontalPodAutoscaler,
}
use kind_music_streaming.Exec.{Error, ok, err}
use kind_music_streaming.Platform.{
  Kind, stateful_set, service, autoscaler, secret, claim, music_service, Obj, Client,
}

abbrev pub metadata_of : (k : Kind) → Obj k → ObjectMeta
metadata_of stateful_set o = o.metadata
metadata_of service o = o.metadata
metadata_of autoscaler o = o.metadata
metadata_of secret o = o.metadata
metadata_of claim o = o.metadata
metadata_of music_service o = o.metadata

-- `client.ObjectKeyFromObject`
abbrev pub key_of : (k : Kind) → Obj k → NamespacedName
key_of k o = record { name = (metadata_of k o).name; namespace = (metadata_of k o).namespace }

-- There is no object, or one that is marked as being deleted.
abbrev pub IsLeaving : (k : Kind) → Option (Obj k) → Type 0
IsLeaving k none = Unit
IsLeaving k (some o) = (metadata_of k o).deletion_timestamp ≢ none

pub record Lawful (c : Client) : Type 0 where
  -- what the server holds
  pub view : c.World → (k : Kind) → NamespacedName → Option (Obj k)
  -- what it has made, in the state after the write, of an object that was sent to it: it fills in
  -- defaults and owns fields such as the uid, the generation and the status
  pub stored : c.World → (k : Kind) → Obj k → Obj k
  pub get_same : (k : Kind) (key : NamespacedName) (w : c.World) → view (c.get k key w).1 ≡ view w
  pub get_found :
      (k : Kind) (key : NamespacedName) (w w' : c.World) (o : Obj k)
      → c.get k key w ≡ (ok o, w')
      → view w k key ≡ some o
  pub get_missing :
      (k : Kind) (key : NamespacedName) (w w' : c.World) (e : Error)
      → c.get k key w ≡ (err e, w')
      → e.is_not_found ≡ true
      → view w k key ≡ none
  -- an object stands under its own key
  pub keyed :
      (w : c.World) (k : Kind) (key : NamespacedName) (o : Obj k)
      → view w k key ≡ some o
      → key_of k o ≡ key
  pub list_same : (namespace : String) (w : c.World) → view (c.list namespace w).1 ≡ view w
  pub create_stores :
      (k : Kind) (o : Obj k) (w w' : c.World)
      → c.create k o w ≡ (ok tt, w')
      → view w' k (key_of k o) ≡ some (stored w' k o)
  pub update_stores :
      (k : Kind) (o o' : Obj k) (w w' : c.World)
      → c.update k o w ≡ (ok o', w')
      → view w' k (key_of k o) ≡ some (stored w' k o)
  -- an update changes nothing of what has another key
  pub update_frame :
      (k : Kind) (o : Obj k) (w : c.World) (key : NamespacedName)
      → key ≢ key_of k o
      → view (c.update k o w).1 k key ≡ view w k key
  -- the requests of a claim are the client's
  pub stored_requests :
      (w : c.World) (pvc : PersistentVolumeClaim) → (stored w claim pvc).requests ≡ pvc.requests
  -- an object that is deleted may stay until its finalizers are done, as a volume claim that a pod
  -- uses does, but it is then marked
  pub delete_leaves :
      (k : Kind) (o : Obj k) (w w' : c.World)
      → c.delete k o w ≡ (ok tt, w')
      → IsLeaving k (view w' k (key_of k o))
  -- a deletion changes nothing of what has another key
  pub delete_frame :
      (k : Kind) (o : Obj k) (w : c.World) (key : NamespacedName)
      → key ≢ key_of k o
      → view (c.delete k o w).1 k key ≡ view w k key
  -- an update of a volume claim changes no StatefulSet
  pub claims_apart :
      (pvc : PersistentVolumeClaim) (w : c.World) (key : NamespacedName)
      → view (c.update claim pvc w).1 stateful_set key ≡ view w stateful_set key
  -- a deletion of an autoscaler changes nothing of another kind
  pub autoscalers_apart :
      (hpa : HorizontalPodAutoscaler) (w : c.World) (k : Kind) (key : NamespacedName)
      → k ≢ autoscaler
      → view (c.delete autoscaler hpa w).1 k key ≡ view w k key
  -- no object goes away by the creation of one, nor by an update of one whose finalizers the program
  -- leaves alone: it changes those of MusicServices only
  pub create_stays :
      (k : Kind) (o : Obj k) (w : c.World) (other : Kind) (key : NamespacedName)
      → view w other key ≢ none
      → view (c.create k o w).1 other key ≢ none
  pub update_stays :
      (k : Kind) (o : Obj k) (w : c.World) (other : Kind) (key : NamespacedName)
      → k ≢ music_service
      → view w other key ≢ none
      → view (c.update k o w).1 other key ≢ none
  -- random numbers are none of the server's business
  pub random_same : (n : ℕ) (w : c.World) → view (c.rand_read n w).1 ≡ view w
