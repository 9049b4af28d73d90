-- ===== src/Reconciler/Authority/Sets.antt =====
-- The permitted calls, and the code that the reconcilers share.
use kind_music_streaming.Prelude.{
  ℕ, String, ◌≡◌, refl, ◌⊎◌, Option, none, some, List, [], ◌∷◌, lookup, insert, ◌===◌, eq_iff,
}
use kind_music_streaming.Prelude.Int.{◌<ℤ◌, ltb_ℤ-lt}
use kind_music_streaming.Kube.{
  Quantity, NamespacedName, PersistentVolumeClaim, StatefulSet, HorizontalPodAutoscaler, Secret,
}
use kind_music_streaming.Api.{MusicService, StorageSpec, storage_update_policy_recreate}
use kind_music_streaming.Exec.{Error, Outcome, ok, ◌>>◌}
use kind_music_streaming.Exec.Keeps.{
  Keeps, keeps_rules, Keeps-bind, Keeps-if, Keeps-bind-lift, Keeps-handle, Keeps-pure, Keeps-raise,
}
use kind_music_streaming.Platform.{
  Kind, stateful_set, autoscaler, secret, claim, Obj, Library, Client,
}
use kind_music_streaming.Platform.Lawful.{metadata_of}
use kind_music_streaming.Builder.Ownership.{IsOwned}
use kind_music_streaming.Reconciler.Storage.{
  storage_update_policy, storage_size_changed, storage_request_from_stateful_set, resize_pvcs,
  list_pvcs_by_prefix, resize_from, resize_each, resize_to, delete_each,
  recreate_stateful_set_storage,
}
use kind_music_streaming.Reconciler.Database.{database_storage_spec}
use kind_music_streaming.Reconciler.Ensure.{
  create_missing, ensure, roll_out, update_stateful_set, reconcile_set,
}

-- Storage may be recreated if the spec of the application or of the database says so.
abbrev pub Recreates : MusicService → Type 0
Recreates ms =
    (storage_update_policy ms.spec.storage ≡ storage_update_policy_recreate)
    ⊎ (storage_update_policy (database_storage_spec ms) ≡ storage_update_policy_recreate)

-- The calls that may be made for `ms` keep `P`. There is none that updates or deletes a service or
-- a secret's key, or that updates the MusicService other than in its status.
pub record Grants (lib : Library) (c : Client) (ms : MusicService) (P : c.World → Type 0)
    : Type 0 where
  pub gets : (k : Kind) (key : NamespacedName) → Keeps P (c.get k key)
  pub lists : (namespace : String) → Keeps P (c.list namespace)
  pub random : (n : ℕ) → Keeps P (c.rand_read n)
  pub creates : (k : Kind) (o : Obj k) → IsOwned lib ms (metadata_of k o) → Keeps P (c.create k o)
  pub updates_set : (sts : StatefulSet) → Keeps P (c.update stateful_set sts)
  pub updates_autoscaler : (hpa : HorizontalPodAutoscaler) → Keeps P (c.update autoscaler hpa)
  pub updates_secret : (s : Secret) → Keeps P (c.update secret s)
  -- a claim is only given a larger size
  pub grows :
      (pvc : PersistentVolumeClaim) (old new : Quantity)
      → lookup "storage" pvc.requests ≡ some old
      → old.thousandths <ℤ new.thousandths
      → Keeps P (c.update claim (record pvc { requests = insert "storage" new pvc.requests }))
  -- without autoscaling in the spec an autoscaler is deleted
  pub deletes_autoscaler :
      ms.spec.autoscaling ≡ none
      → (hpa : HorizontalPodAutoscaler) → Keeps P (c.delete autoscaler hpa)
  pub deletes_set : Recreates ms → (sts : StatefulSet) → Keeps P (c.delete stateful_set sts)
  pub deletes_claim : Recreates ms → (pvc : PersistentVolumeClaim) → Keeps P (c.delete claim pvc)

module _ (lib : Library) (c : Client) (ms : MusicService) (P : c.World → Type 0)
    (g : Grants lib c ms P) where
  list_pvcs-Keeps :
      (claim_name app_name namespace : String)
      → Keeps P (list_pvcs_by_prefix c claim_name app_name namespace)
  unfolding list_pvcs_by_prefix
  list_pvcs-Keeps claim_name app_name namespace = search (keeps_rules, g.lists)

  resize_from-Keeps :
      (size : Quantity) (pvc : PersistentVolumeClaim) (old : Option Quantity)
      → lookup "storage" pvc.requests ≡ old
      → Keeps P (resize_from c size pvc old)
  unfolding resize_from
  resize_from-Keeps size pvc none e = Keeps-pure tt
  resize_from-Keeps size pvc (some old) e =
      Keeps-if _ _ _
        (λ less.
          Keeps-bind _ _
            (g.grows pvc old size e ((ltb_ℤ-lt old.thousandths size.thousandths).0 less))
            (λ _. Keeps-pure tt))
        (λ _. Keeps-pure tt)

  resize_each-Keeps :
      (size : Quantity) (pvcs : List PersistentVolumeClaim) → Keeps P (resize_each c size pvcs)
  unfolding resize_each
  resize_each-Keeps size [] = Keeps-pure tt
  resize_each-Keeps size (pvc ∷ pvcs) =
      Keeps-bind _ _ (resize_from-Keeps size pvc (lookup "storage" pvc.requests) refl)
        (λ _. resize_each-Keeps size pvcs)

  resize_to-Keeps :
      (claim_name app_name namespace : String) (size : Option Quantity)
      → Keeps P (resize_to c claim_name app_name namespace size)
  unfolding resize_to
  resize_to-Keeps claim_name app_name namespace none = Keeps-pure tt
  resize_to-Keeps claim_name app_name namespace (some size) =
      Keeps-bind _ _ (list_pvcs-Keeps claim_name app_name namespace)
        (λ pvcs. resize_each-Keeps size pvcs)

  delete_each-Keeps :
      Recreates ms → (pvcs : List PersistentVolumeClaim) → Keeps P (delete_each c pvcs)
  unfolding delete_each
  delete_each-Keeps r [] = Keeps-pure tt
  delete_each-Keeps r (pvc ∷ pvcs) =
      Keeps-bind _ _ (g.deletes_claim r pvc) (λ _. delete_each-Keeps r pvcs)

  recreate-Keeps :
      Recreates ms
      → (sts : StatefulSet) (claim_name app_name : String)
      → Keeps P (recreate_stateful_set_storage c sts claim_name app_name)
  unfolding recreate_stateful_set_storage
  recreate-Keeps r sts claim_name app_name = Keeps-bind _ _ (g.deletes_set r sts) (λ _.
      Keeps-bind _ _ (list_pvcs-Keeps claim_name app_name sts.metadata.namespace)
        (λ pvcs. delete_each-Keeps r pvcs))

  roll_out-Keeps : (sts desired : StatefulSet) → Keeps P (roll_out c sts desired)
  unfolding roll_out
  roll_out-Keeps sts desired = search (keeps_rules, g.updates_set)

  pub create_missing-Keeps :
      (k : Kind) (build : Outcome (Obj k)) (e : Error)
      → ((o : Obj k) → build ≡ ok o → IsOwned lib ms (metadata_of k o))
      → Keeps P (create_missing c k build e)
  unfolding create_missing
  create_missing-Keeps k build e owned =
      Keeps-if _ _ _ (λ _. Keeps-bind-lift build _ (λ o built. g.creates k o (owned o built)))
        (λ _. Keeps-raise e)

  pub ensure-Keeps :
      (k : Kind) (key : NamespacedName) (build : Outcome (Obj k))
      → ((o : Obj k) → build ≡ ok o → IsOwned lib ms (metadata_of k o))
      → Keeps P (ensure c k key build)
  unfolding ensure
  ensure-Keeps k key build owned =
      Keeps-handle _ _ _ (g.gets k key) (λ e. create_missing-Keeps k build e owned)
        (λ _. Keeps-pure tt)

  pub update_set-Keeps :
      (storage : StorageSpec) (claim_name app_name : String) (sts desired : StatefulSet)
      → (storage_update_policy storage ≡ storage_update_policy_recreate → Recreates ms)
      → Keeps P (update_stateful_set c storage claim_name app_name sts desired)
  unfolding update_stateful_set
  update_set-Keeps storage claim_name app_name sts desired permitted =
      Keeps-if (storage_size_changed sts desired) _ _
        (λ _.
          Keeps-if (storage_update_policy storage === storage_update_policy_recreate) _
            (resize_pvcs c claim_name app_name desired >> roll_out c sts desired)
            (λ recreate.
              recreate-Keeps (permitted ((eq_iff _ _).0 recreate)) sts claim_name app_name)
            (λ _.
              Keeps-bind (resize_pvcs c claim_name app_name desired) _
                (resize_to-Keeps claim_name app_name desired.metadata.namespace
                  (storage_request_from_stateful_set desired))
                (λ _. roll_out-Keeps sts desired)))
        (λ _. roll_out-Keeps sts desired)

  pub reconcile_set-Keeps :
      (key : NamespacedName) (build : Outcome StatefulSet) (storage : StorageSpec)
      (claim_name app_name : String)
      → ((sts : StatefulSet) → build ≡ ok sts → IsOwned lib ms sts.metadata)
      → (storage_update_policy storage ≡ storage_update_policy_recreate → Recreates ms)
      → Keeps P (reconcile_set c key build storage claim_name app_name)
  unfolding reconcile_set
  reconcile_set-Keeps key build storage claim_name app_name owned permitted =
      Keeps-handle _ _ _ (g.gets stateful_set key)
        (λ e. create_missing-Keeps stateful_set build e owned)
        (λ sts.
          Keeps-bind-lift build _
            (λ desired _. update_set-Keeps storage claim_name app_name sts desired permitted))
