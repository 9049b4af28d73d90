-- ===== src/Reconciler/Storage/Prefix.antt =====
-- Which volume claims `listPVCsByPrefix` picks, here and in the status manager.
use Prim.Native.String.{len}
use mathlib.Core.Path.{fun_ext}
use text.Mathlib.TextLemmas.{append_assoc}
use text.Mathlib.TextPositions.{len-append, starts_with-append}
use text.Mathlib.TextEquality.{starts_with_iff}
use kind_music_streaming.Prelude.{
  String, ◌<>◌, ◌≡◌, ◌↔◌, sym, ap, Bool, true, List, filter, In, In-filter, arith, leb, starts_with,
}
use kind_music_streaming.Kube.{PersistentVolumeClaim}
use kind_music_streaming.Exec.{ok, pure, ◌>>=◌}
use kind_music_streaming.Platform.{Client}
use kind_music_streaming.Reconciler.Storage.{has_prefix, claim_prefix, list_pvcs_by_prefix}
use kind_music_streaming.Status.Storage.{begins_with}
use kind_music_streaming.Status.Storage

len-le_of_starts_with : (s t : String) → starts_with s t ≡ true → leb (len t) (len s) ≡ true
len-le_of_starts_with s t h =
    let (u, e) = (starts_with_iff s t).0 h in rw (← e, len-append t u) (ground arith)

-- The byte comparison of the status manager is `strings.HasPrefix`.
begins_with-has_prefix :
    (prefix : String) (pvc : PersistentVolumeClaim) → begins_with prefix pvc ≡ has_prefix prefix pvc
unfolding begins_with has_prefix
begins_with-has_prefix prefix pvc = ground (arith, len-le_of_starts_with pvc.metadata.name prefix)

module _ (c : Client) (claim_name app_name namespace : String) where
  -- The reconcilers and the status manager, which have a function of their own each, list the same
  -- claims, with the same errors and the same calls of the server.
  pub list_pvcs_by_prefix-agree :
      list_pvcs_by_prefix c claim_name app_name namespace
      ≡ Storage.list_pvcs_by_prefix c claim_name app_name namespace
  unfolding list_pvcs_by_prefix Storage.list_pvcs_by_prefix
  list_pvcs_by_prefix-agree =
      ap (λ (p : PersistentVolumeClaim → Bool). c.list namespace >>= λ items. pure (filter p items))
        (sym (fun_ext (begins_with-has_prefix (claim_prefix claim_name app_name))))

pub has_prefix-append :
    (claim_name app_name rest : String) (pvc : PersistentVolumeClaim)
    → pvc.metadata.name ≡ claim_prefix claim_name app_name <> rest
    → has_prefix (claim_prefix claim_name app_name) pvc ≡ true
unfolding has_prefix
has_prefix-append claim_name app_name rest pvc e = rw e (starts_with-append _ rest)

module _ (c : Client) (claim_name app_name namespace : String) (w w' : c.World) where
  -- When the server lists the claims of the namespace, the claims picked are those of them whose
  -- name begins with the prefix.
  pub list_pvcs_by_prefix_lem :
      (items : List PersistentVolumeClaim)
      → c.list namespace w ≡ (ok items, w')
      → (picked : List PersistentVolumeClaim) × (list_pvcs_by_prefix c claim_name app_name namespace
            w
          ≡ (ok picked, w'))
        × ((pvc : PersistentVolumeClaim)
            → In pvc picked
              ↔ (In pvc items × (has_prefix (claim_prefix claim_name app_name) pvc ≡ true)))
  unfolding list_pvcs_by_prefix
  list_pvcs_by_prefix_lem items e = (
    filter (has_prefix (claim_prefix claim_name app_name)) items,
    rw e,
    λ pvc. In-filter (has_prefix (claim_prefix claim_name app_name)) pvc items,
  )

-- The claim of a pod of another set, whose name is this set's name, a dash and more.
pub foreign-has_prefix :
    (claim_name app_name other ordinal : String) (pvc : PersistentVolumeClaim)
    → pvc.metadata.name ≡ claim_prefix claim_name (app_name <> "-" <> other) <> ordinal
    → has_prefix (claim_prefix claim_name app_name) pvc ≡ true
unfolding claim_prefix
foreign-has_prefix claim_name app_name other ordinal pvc e =
    has_prefix-append claim_name app_name (other <> "-" <> ordinal) pvc (simp (e, append_assoc))
