-- ===== src/Reconciler/Total/Sets.antt =====
-- The server that is assumed, and the code that the reconcilers share.
use kind_music_streaming.Prelude.{
  ◌≡◌, ◌⊎◌, inl, inr, arith, true, false, ℕ, String, Option, none, some, List, [], ◌∷◌, lookup,
  insert, ◌===◌,
}
use kind_music_streaming.Prelude.Int.{ltb_ℤ}
use kind_music_streaming.Kube.{Quantity, NamespacedName, PersistentVolumeClaim, StatefulSet}
use kind_music_streaming.Api.{StorageSpec, MusicService, storage_update_policy_recreate}
use kind_music_streaming.Exec.{Error, Outcome}
use kind_music_streaming.Exec.Ensures.{
  Returns, value, Ensures, Safe, Ensures-pure, Ensures-raise, Ensures-lift, Ensures-if,
  Ensures-bind, Ensures-handle,
}
use kind_music_streaming.Platform.{Kind, stateful_set, claim, music_service, Obj, Library, Client}
use kind_music_streaming.Builder.{IsBuildable, HasReplicas}
use kind_music_streaming.Reconciler.Storage.{
  storage_size_changed, storage_update_policy, list_pvcs_by_prefix, resize_from, resize_pvc,
  resize_each, resize_to, resize_pvcs, delete_each, recreate_stateful_set_storage,
}
use kind_music_streaming.Reconciler.Compare.{stateful_set_needs_update}
use kind_music_streaming.Reconciler.Ensure.{
  create_missing, ensure, roll_out, update_stateful_set, reconcile_set,
}

-- An object as the server hands it out: a StatefulSet has a number of replicas, which the server
-- fills in, and the spec of a MusicService is one that can be built.
abbrev pub Sound : Library → (k : Kind) → Obj k → Type 0
Sound lib stateful_set o = HasReplicas o
Sound lib music_service o = IsBuildable lib o.spec
Sound lib _ o = Unit

-- The errors of a read: that there is no such object, and those in `E`.
abbrev pub NotRead : (Error → Type 0) → Error → Type 0
NotRead E e = (e.is_not_found ≡ true) ⊎ E e

-- A client that never panics, whose objects are sound, and which fails with errors in `E` only.
-- Every call may fail in some states, a write of an object that is there already or is gone among
-- them, so that `E` has such errors too.
pub record Steady (E : Error → Type 0) (lib : Library) (c : Client) : Type 0 where
  pub gets : (k : Kind) (key : NamespacedName) → Ensures (NotRead E) (Sound lib k) (c.get k key)
  pub creates : (k : Kind) (o : Obj k) → Safe E (c.create k o)
  pub updates : (k : Kind) (o : Obj k) → Ensures E (Sound lib k) (c.update k o)
  pub deletes : (k : Kind) (o : Obj k) → Safe E (c.delete k o)
  pub lists : (namespace : String) → Safe E (c.list namespace)
  pub statuses : (ms : MusicService) → Safe E (c.update_status ms)
  pub events :
      (ms : MusicService) (type reason message : String) → Safe E (c.event ms type reason message)
  pub clock : Safe E c.now
  pub random : (n : ℕ) → Safe E (c.rand_read n)

module _ (E : Error → Type 0) (lib : Library) (c : Client) (steady : Steady E lib c) where
  pub list-Safe : (a b namespace : String) → Safe E (list_pvcs_by_prefix c a b namespace)
  unfolding list_pvcs_by_prefix
  list-Safe a b namespace =
      Ensures-bind (c.list namespace) _ (steady.lists namespace) (λ items _. Ensures-pure _ tt)

  resize_from-Safe :
      (size : Quantity) (pvc : PersistentVolumeClaim) (old : Option Quantity)
      → Safe E (resize_from c size pvc old)
  unfolding resize_from
  resize_from-Safe size pvc none = Ensures-pure tt tt
  resize_from-Safe size pvc (some old) =
      Ensures-if (ltb_ℤ old.thousandths size.thousandths) _ _
        (λ _.
          Ensures-bind
            (c.update claim (record pvc { requests = insert "storage" size pvc.requests })) _
            (steady.updates claim _) (λ _ _. Ensures-pure tt tt))
        (λ _. Ensures-pure tt tt)

  resize_each-Safe :
      (size : Quantity) (pvcs : List PersistentVolumeClaim) → Safe E (resize_each c size pvcs)
  unfolding resize_each resize_pvc
  resize_each-Safe size [] = Ensures-pure tt tt
  resize_each-Safe size (pvc ∷ pvcs) =
      Ensures-bind (resize_pvc c size pvc) _
        (resize_from-Safe size pvc (lookup "storage" pvc.requests))
        (λ _ _. resize_each-Safe size pvcs)

  resize_to-Safe :
      (a b namespace : String) (o : Option Quantity) → Safe E (resize_to c a b namespace o)
  unfolding resize_to
  resize_to-Safe a b namespace none = Ensures-pure tt tt
  resize_to-Safe a b namespace (some size) =
      Ensures-bind (list_pvcs_by_prefix c a b namespace) _ (list-Safe a b namespace)
        (λ pvcs _. resize_each-Safe size pvcs)

  delete_each-Safe : (pvcs : List PersistentVolumeClaim) → Safe E (delete_each c pvcs)
  unfolding delete_each
  delete_each-Safe [] = Ensures-pure tt tt
  delete_each-Safe (pvc ∷ pvcs) =
      Ensures-bind _ _ (steady.deletes claim pvc) (λ _ _. delete_each-Safe pvcs)

  recreate-Safe :
      (sts : StatefulSet) (a b : String) → Safe E (recreate_stateful_set_storage c sts a b)
  unfolding recreate_stateful_set_storage
  recreate-Safe sts a b = Ensures-bind _ _ (steady.deletes stateful_set sts) (λ _ _.
      Ensures-bind _ _ (list-Safe a b sts.metadata.namespace) (λ pvcs _. delete_each-Safe pvcs))

  needs_update-Returns :
      (sts desired : StatefulSet)
      → HasReplicas sts
      → HasReplicas desired
      → Returns (λ _. Unit {0}) (stateful_set_needs_update sts desired)
  unfolding stateful_set_needs_update
  needs_update-Returns sts desired (n, e) (m, f) = rw (e, f) (value tt)

  roll_out-Safe :
      (sts desired : StatefulSet)
      → HasReplicas sts
      → HasReplicas desired
      → Safe E (roll_out c sts desired)
  unfolding roll_out
  roll_out-Safe sts desired have want =
      Ensures-bind _ _ (Ensures-lift _ (needs_update-Returns sts desired have want)) (λ differs _.
        Ensures-if differs _ _
          (λ _. Ensures-bind _ _ (steady.updates stateful_set _) (λ _ _. Ensures-pure tt tt))
          (λ _. Ensures-pure tt tt))

  update_set-Safe :
      (storage : StorageSpec) (a b : String) (sts desired : StatefulSet)
      → HasReplicas sts
      → HasReplicas desired
      → Safe E (update_stateful_set c storage a b sts desired)
  unfolding update_stateful_set resize_pvcs
  update_set-Safe storage a b sts desired have want =
      let rolls = roll_out-Safe sts desired have want in
      Ensures-if (storage_size_changed sts desired) _ _
        (λ _.
          Ensures-if (storage_update_policy storage === storage_update_policy_recreate) _ _
            (λ _. recreate-Safe sts a b)
            (λ _. Ensures-bind _ _ (resize_to-Safe a b _ _) (λ _ _. rolls)))
        (λ _. rolls)

  pub other_error : (e : Error) → NotRead E e → e.is_not_found ≡ false → E e
  other_error e (inl missing) other = absurd (ground arith)
  other_error e (inr x) other = x

  pub create_missing-Safe :
      (Q : (k : Kind) → Obj k → Type 0) (k : Kind) (build : Outcome (Obj k)) (e : Error)
      → Returns (Q k) build
      → NotRead E e
      → Safe E (create_missing c k build e)
  unfolding create_missing
  create_missing-Safe Q k build e built unread =
      Ensures-if e.is_not_found _ _
        (λ _. Ensures-bind _ _ (Ensures-lift build built) (λ o _. steady.creates k o))
        (λ other. Ensures-raise e (other_error e unread other))

  pub ensure-Safe :
      (k : Kind) (key : NamespacedName) (build : Outcome (Obj k))
      → Returns (λ _. Unit {0}) build
      → Safe E (ensure c k key build)
  unfolding ensure
  ensure-Safe k key build built =
      Ensures-handle _ _ _ (steady.gets k key)
        (λ e unread. create_missing-Safe (λ _ _. Unit {0}) k build e built unread)
        (λ _ _. Ensures-pure tt tt)

  pub reconcile_set-Safe :
      (key : NamespacedName) (build : Outcome StatefulSet) (storage : StorageSpec) (a b : String)
      → Returns HasReplicas build
      → Safe E (reconcile_set c key build storage a b)
  unfolding reconcile_set
  reconcile_set-Safe key build storage a b built =
      Ensures-handle _ _ _ (steady.gets stateful_set key)
        (λ e unread. create_missing-Safe (Sound lib) stateful_set build e built unread)
        (λ sts have.
          Ensures-bind _ _ (Ensures-lift build built)
            (λ desired want. update_set-Safe storage a b sts desired have want))
