-- ===== src/Reconciler/App.antt =====
-- internal/reconciler/app.go: the application's service, StatefulSet and autoscaler.
use kind_music_streaming.Prelude.{Option, none, some, if◌then◌else◌}
use kind_music_streaming.Kube.{NamespacedName, HorizontalPodAutoscaler}
use kind_music_streaming.Api.{AutoscalingSpec, MusicService}
use kind_music_streaming.Exec.{ok, Exec, pure, raise, lift, ◌>>=◌, handle}
use kind_music_streaming.Platform.{service, autoscaler, Library, Client}
use kind_music_streaming.Builder.{
  name_of, build_app_service, build_app_stateful_set, build_autoscaler,
}
use kind_music_streaming.Reconciler.Compare.{autoscaler_needs_update}
use kind_music_streaming.Reconciler.Ensure.{create_missing, ensure, reconcile_set}

-- The key of the application's service and StatefulSet.
unfoldable pub app_key : MusicService → NamespacedName
app_key ms = record { name = ms.metadata.name; namespace = ms.metadata.namespace }

module _ (lib : Library) (c : Client) where
  unfoldable pub reconcile_service : MusicService → Exec c.World (Unit {0})
  unfolding ensure app_key
  reconcile_service ms = ensure c service (app_key ms) (ok (build_app_service lib ms))

  unfoldable pub reconcile_stateful_set : MusicService → Exec c.World (Unit {0})
  unfolding reconcile_set app_key
  reconcile_stateful_set ms =
      reconcile_set c (app_key ms) (build_app_stateful_set lib ms) ms.spec.storage "music-data"
        ms.metadata.name

  unfoldable pub delete_autoscaler_if_exists : MusicService → Exec c.World (Unit {0})
  unfolding pure raise handle name_of
  delete_autoscaler_if_exists ms =
      handle (c.get autoscaler (name_of ms "-autoscaler"))
        (λ e. if e.is_not_found then pure tt else raise e) (λ hpa. c.delete autoscaler hpa)

  -- The update of an existing autoscaler to the desired one.
  unfoldable pub update_autoscaler :
      HorizontalPodAutoscaler → HorizontalPodAutoscaler → Exec c.World (Unit {0})
  unfolding autoscaler_needs_update pure ◌>>=◌
  update_autoscaler hpa desired =
      if autoscaler_needs_update hpa desired
      then (do _ ← c.update autoscaler (record hpa { spec = desired.spec }); pure tt)
      else pure tt

  unfoldable pub autoscale : MusicService → Option AutoscalingSpec → Exec c.World (Unit {0})
  unfolding delete_autoscaler_if_exists update_autoscaler create_missing lift ◌>>=◌ handle name_of
  autoscale ms none = delete_autoscaler_if_exists ms
  autoscale ms (some _) =
      handle (c.get autoscaler (name_of ms "-autoscaler"))
        (create_missing c autoscaler (build_autoscaler lib ms))
        λ hpa. do desired ← lift (build_autoscaler lib ms); update_autoscaler hpa desired

  unfoldable pub reconcile_autoscaler : MusicService → Exec c.World (Unit {0})
  unfolding autoscale
  reconcile_autoscaler ms = autoscale ms ms.spec.autoscaling
