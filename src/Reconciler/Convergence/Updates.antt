-- ===== src/Reconciler/Convergence/Updates.antt =====
-- An existing StatefulSet that is brought to the desired one.
use kind_music_streaming.Prelude.{
  String, Bool, ◌≡◌, ◌≢◌, refl, ◌∙◌, ap, true, false, ◌⊎◌, inl, inr, Option, none, some, List, [],
  ◌∷◌, lookup, arith, Bool-cases, ◌===◌, if◌then◌else◌, eq_iff,
}
use kind_music_streaming.Kube.{Quantity, NamespacedName, PersistentVolumeClaim, StatefulSet}
use kind_music_streaming.Api.{StorageSpec, storage_update_policy_recreate}
use kind_music_streaming.Exec.{ok, Exec, pure, lift, ◌>>=◌}
use kind_music_streaming.Exec.Keeps.{Keeps, keeps_rules, Keeps-pure, Keeps-bind}
use kind_music_streaming.Exec.Inversion.{pure_ok, lift_ok, bind_ok}
use kind_music_streaming.Platform.{stateful_set, claim, Client}
use kind_music_streaming.Platform.Lawful.{Lawful}
use kind_music_streaming.Reconciler.Storage.{
  storage_update_policy, storage_size_changed, list_pvcs_by_prefix, resize_from, resize_each,
  resize_pvc, resize_to, resize_pvcs,
}
use kind_music_streaming.Reconciler.Compare.{stateful_set_needs_update}
use kind_music_streaming.Reconciler.Ensure.{roll_out, update_stateful_set}

module _ (c : Client) (law : Lawful c) where
  -- The server holds the desired object as created, or an old one that was given the desired spec,
  -- or one that needs no update.
  pub record Settled (w : c.World) (key : NamespacedName) (desired : StatefulSet) : Type 0 where
    pub set : StatefulSet
    pub present : law.view w stateful_set key ≡ some set
    pub fits :
        (set ≡ law.stored w stateful_set desired)
        ⊎ (((old : StatefulSet) × (set
                ≡ law.stored w stateful_set (record old { spec = desired.spec })))
            ⊎ (stateful_set_needs_update set desired ≡ ok false))

  roll_out-Settled :
      (key : NamespacedName) (sts desired : StatefulSet) (w w' : c.World)
      → law.view w stateful_set key ≡ some sts
      → roll_out c sts desired w ≡ (ok tt, w')
      → Settled w' key desired
  unfolding roll_out
  roll_out-Settled key sts desired w w' there run =
      let (differs, w₁, asked, rest) =
        bind_ok (lift (stateful_set_needs_update sts desired)) next tt w w' run in
      let (answer, same) = lift_ok _ differs w w₁ asked in
      by_answer differs answer (rw (← same) at rest)
    where
      new : StatefulSet
      new = record sts { spec = desired.spec }

      next : Bool → Exec c.World (Unit {0})
      next differs = if differs then (c.update stateful_set new >>= λ _. pure tt) else pure tt

      by_answer :
          (differs : Bool)
          → stateful_set_needs_update sts desired ≡ ok differs
          → next differs w ≡ (ok tt, w')
          → Settled w' key desired
      by_answer true answer rest =
          let (o, w₁, done, last) = bind_ok (c.update stateful_set new) _ tt w w' rest in
          let (_, same) = pure_ok tt tt w₁ w' last in
          record {
            set = law.stored w' stateful_set new;
            present =
                rw (← law.keyed w stateful_set key sts there)
                  (law.update_stores stateful_set new o w w' (rw same at done));
            fits = inr (inl (sts, refl));
          }
      by_answer false answer rest =
          let (_, same) = pure_ok tt tt w w' rest in
          record { set = sts; present = rw (← same) there; fits = inr (inr answer) }

  module _ (key : NamespacedName) (seen : Option StatefulSet) where
    -- What the server holds as the StatefulSet of the key.
    abbrev pub Holds : c.World → Type 0
    Holds w = law.view w stateful_set key ≡ seen

    claims-Holds : (pvc : PersistentVolumeClaim) → Keeps Holds (c.update claim pvc)
    claims-Holds pvc = record { at = λ w h. law.claims_apart pvc w key ∙ h }

    lists-Holds : (namespace : String) → Keeps Holds (c.list namespace)
    lists-Holds namespace = record {
      at = λ w h. ap (λ v. v stateful_set key) (law.list_same namespace w) ∙ h;
    }

    resize_from-Holds :
        (size : Quantity) (pvc : PersistentVolumeClaim) (o : Option Quantity)
        → Keeps Holds (resize_from c size pvc o)
    unfolding resize_from
    resize_from-Holds size pvc none = Keeps-pure tt
    resize_from-Holds size pvc (some q) = search (keeps_rules, claims-Holds)

    resize_each-Holds :
        (size : Quantity) (pvcs : List PersistentVolumeClaim)
        → Keeps Holds (resize_each c size pvcs)
    unfolding resize_each resize_pvc
    resize_each-Holds size [] = Keeps-pure tt
    resize_each-Holds size (pvc ∷ pvcs) =
        Keeps-bind (resize_pvc c size pvc) _
          (resize_from-Holds size pvc (lookup "storage" pvc.requests))
          (λ _. resize_each-Holds size pvcs)

    listing-Holds : (a b n : String) → Keeps Holds (list_pvcs_by_prefix c a b n)
    unfolding list_pvcs_by_prefix
    listing-Holds a b n = search (keeps_rules, lists-Holds)

    resize_to-Holds : (a b n : String) (o : Option Quantity) → Keeps Holds (resize_to c a b n o)
    unfolding resize_to
    resize_to-Holds a b n none = Keeps-pure tt
    resize_to-Holds a b n (some size) =
        Keeps-bind (list_pvcs_by_prefix c a b n) _ (listing-Holds a b n) (resize_each-Holds size)

    pub resize_pvcs-Holds :
        (a b : String) (desired : StatefulSet) → Keeps Holds (resize_pvcs c a b desired)
    unfolding resize_pvcs
    resize_pvcs-Holds a b desired = resize_to-Holds a b _ _

  pub update_stateful_set-Settled :
      (storage : StorageSpec) (a b : String) (key : NamespacedName) (sts desired : StatefulSet)
      (w w' : c.World)
      → storage_update_policy storage ≢ storage_update_policy_recreate
      → law.view w stateful_set key ≡ some sts
      → update_stateful_set c storage a b sts desired w ≡ (ok tt, w')
      → Settled w' key desired
  unfolding update_stateful_set
  update_stateful_set-Settled storage a b key sts desired w w' kept there run =
      elim (Bool-cases (storage_size_changed sts desired)) [
        | inr same ↦ roll_out-Settled key sts desired w w' there (rw same at run)
        | inl changed ↦
            let resized = rw (changed, resizing) at run in
            let (_, w₁, done, rest) =
              bind_ok (resize_pvcs c a b desired) (λ _. roll_out c sts desired) tt w w' resized in
            let held = (resize_pvcs-Holds key (some sts) a b desired).at w there in
            roll_out-Settled key sts desired w₁ w' (rw done at held) rest
      ]
    where
      resizing : (storage_update_policy storage === storage_update_policy_recreate) ≡ false
      resizing =
          ground (arith, eq_iff (storage_update_policy storage) storage_update_policy_recreate)
