-- ===== src/Reconciler/Storage/Deletion.antt =====
-- `deletePVCsByPrefix` on a lawful server: what is deleted, and what is left alone.
use kind_music_streaming.Prelude.{
  String, ◌<>◌, ◌≡◌, ◌≢◌, refl, true, List, [], ◌∷◌, In, arith, inl, inr, string_discrete,
}
use kind_music_streaming.Kube.{NamespacedName, PersistentVolumeClaim}
use kind_music_streaming.Exec.{ok}
use kind_music_streaming.Exec.Inversion.{pure_ok, bind_ok}
use kind_music_streaming.Platform.{claim, Client}
use kind_music_streaming.Platform.Lawful.{Lawful, IsLeaving, key_of}
use kind_music_streaming.Reconciler.Storage.{
  has_prefix, claim_prefix, delete_each, delete_pvcs_by_prefix,
}
use kind_music_streaming.Reconciler.Storage.Prefix.{list_pvcs_by_prefix_lem, foreign-has_prefix}

key_discrete : Discrete NamespacedName
key_discrete = hlevel (string_discrete)

module _ (c : Client) (law : Lawful c) where
  -- What is leaving still is after another deletion, of the same claim or of another one.
  delete-leaves_key :
      (pvc : PersistentVolumeClaim) (w w' : c.World) (key : NamespacedName)
      → c.delete claim pvc w ≡ (ok tt, w')
      → IsLeaving claim (law.view w claim key)
      → IsLeaving claim (law.view w' claim key)
  delete-leaves_key pvc w w' key run leaving = elim (key_discrete key (key_of claim pvc)) [
    | yes same ↦ rw same (law.delete_leaves claim pvc w w' run)
    | no other ↦ rw (rw run at (law.delete_frame claim pvc w key other)) leaving
  ]

  delete_each-stays :
      (pvcs : List PersistentVolumeClaim) (w w' : c.World) (key : NamespacedName)
      → delete_each c pvcs w ≡ (ok tt, w')
      → IsLeaving claim (law.view w claim key)
      → IsLeaving claim (law.view w' claim key)
  unfolding delete_each
  delete_each-stays [] w w' key run leaving =
      let (_, same) = pure_ok tt tt w w' run in rw (← same) leaving
  delete_each-stays (pvc ∷ pvcs) w w' key run leaving =
      let (_, w₁, first, rest) =
        bind_ok (c.delete claim pvc) (λ _. delete_each c pvcs) tt w w' run in
      delete_each-stays pvcs w₁ w' key rest (delete-leaves_key pvc w w₁ key first leaving)

  delete_each-leaves :
      (pvcs : List PersistentVolumeClaim) (w w' : c.World) (pvc : PersistentVolumeClaim)
      → delete_each c pvcs w ≡ (ok tt, w')
      → In pvc pvcs
      → IsLeaving claim (law.view w' claim (key_of claim pvc))
  unfolding delete_each
  delete_each-leaves [] w w' pvc run m = absurd m
  delete_each-leaves (x ∷ pvcs) w w' pvc run m =
      let (_, w₁, first, rest) = bind_ok (c.delete claim x) (λ _. delete_each c pvcs) tt w w' run in
      elim m [
        | inl here ↦ rw here (
            delete_each-stays pvcs w₁ w' (key_of claim x) rest
              (law.delete_leaves claim x w w₁ first))
        | inr later ↦ delete_each-leaves pvcs w₁ w' pvc rest later
      ]

  delete_each-frame :
      (pvcs : List PersistentVolumeClaim) (w : c.World) (key : NamespacedName)
      → ((pvc : PersistentVolumeClaim) → In pvc pvcs → key ≢ key_of claim pvc)
      → law.view (delete_each c pvcs w).1 claim key ≡ law.view w claim key
  unfolding delete_each
  delete_each-frame [] w key other = refl
  delete_each-frame (pvc ∷ pvcs) w key other = ground (
    arith,
    law.delete_frame claim pvc w key (other pvc (inl refl)),
    delete_each-frame pvcs (c.delete claim pvc w).1 key (λ x m. other x (inr m)),
  )

  module _ (claim_name app_name namespace : String) (w w₁ : c.World)
      (items : List PersistentVolumeClaim) (listed : c.list namespace w ≡ (ok items, w₁)) where
    -- On a lawful server that lists the claims of the namespace: after a successful run each claim of
    -- the listing whose name begins with the prefix is gone, or is marked as being deleted.
    pub delete_pvcs_by_prefix-leaves :
        (w' : c.World) (pvc : PersistentVolumeClaim)
        → delete_pvcs_by_prefix c claim_name app_name namespace w ≡ (ok tt, w')
        → In pvc items
        → has_prefix (claim_prefix claim_name app_name) pvc ≡ true
        → IsLeaving claim (law.view w' claim (key_of claim pvc))
    unfolding delete_pvcs_by_prefix
    delete_pvcs_by_prefix-leaves w' pvc e m p =
        let (picked, run, same) =
          list_pvcs_by_prefix_lem c claim_name app_name namespace w w₁ items listed in
        delete_each-leaves picked w₁ w' pvc (rw run at e) ((same pvc).1 (m, p))

    -- On a lawful server that lists the claims of the namespace: whatever the outcome, what stands
    -- under another key than those of the listed claims with the prefix is as it was.
    pub delete_pvcs_by_prefix-frame :
        (key : NamespacedName)
        → ((pvc : PersistentVolumeClaim)
            → In pvc items
            → has_prefix (claim_prefix claim_name app_name) pvc ≡ true
            → key ≢ key_of claim pvc)
        → law.view (delete_pvcs_by_prefix c claim_name app_name namespace w).1 claim key
          ≡ law.view w claim key
    unfolding delete_pvcs_by_prefix
    delete_pvcs_by_prefix-frame key other =
        let (picked, run, same) =
          list_pvcs_by_prefix_lem c claim_name app_name namespace w w₁ items listed in
        let kept : law.view (delete_each c picked w₁).1 claim key ≡ law.view w₁ claim key =
          delete_each-frame picked w₁ key
            (λ pvc m. let (listed, begins) = (same pvc).0 m in other pvc listed begins) in
        let seen : law.view w₁ ≡ law.view w = rw listed at (law.list_same namespace w) in
        rw run (cc)

    -- On a lawful server that lists the claims of the namespace: a successful run also deletes the
    -- listed claims of another set, if its name is app_name, a dash and more: each of them is gone
    -- afterwards, or is marked as being deleted.
    pub delete_pvcs_by_prefix-foreign :
        (w' : c.World) (pvc : PersistentVolumeClaim) (other ordinal : String)
        → delete_pvcs_by_prefix c claim_name app_name namespace w ≡ (ok tt, w')
        → In pvc items
        → pvc.metadata.name ≡ claim_prefix claim_name (app_name <> "-" <> other) <> ordinal
        → IsLeaving claim (law.view w' claim (key_of claim pvc))
    delete_pvcs_by_prefix-foreign w' pvc other ordinal e m named =
        delete_pvcs_by_prefix-leaves w' pvc e m
          (foreign-has_prefix claim_name app_name other ordinal pvc named)
