-- ===== src/Tests/Rounds.antt =====
-- The theorems on a round of the controller, on the server in memory.
use kind_music_streaming.Prelude.{
  String, ◌≡◌, refl, false, none, some, [], ◌∷◌, ◌++◌, inl, inr, arith, eq_iff,
}
use kind_music_streaming.Kube.{NamespacedName}
use kind_music_streaming.Api.{MusicService, storage_update_policy_recreate}
use kind_music_streaming.Exec.{Error, Outcome, ok, err}
use kind_music_streaming.Exec.Keeps.{Keeps}
use kind_music_streaming.Platform.{
  Kind, stateful_set, service, autoscaler, secret, claim, music_service, Obj, Client,
}
use kind_music_streaming.Builder.{build_app_service, build_app_stateful_set}
use kind_music_streaming.Reconciler.App
use kind_music_streaming.Reconciler.Storage.{storage_update_policy}
use kind_music_streaming.Reconciler.Database.{database_storage_spec}
use kind_music_streaming.Reconciler.Authority.{Grants, Recreates}
use kind_music_streaming.Status.Manager.{update_error}
use kind_music_streaming.Controller.{no_requeue, reconcile_found, reconcile_objects}
use kind_music_streaming.Controller.Authority.{Reports, reconcile_objects-Keeps}
use kind_music_streaming.Controller.Rounds.{Step, steps, none_left, next, reconcile_objects-stops}
use kind_music_streaming.Controller.Deletion.{reconcile_found-deleting}
use kind_music_streaming.Tests.Memory.{Cluster, get, create, put, update, list_claims, memory}
use kind_music_streaming.Tests.Examples.{library, radio, plain, cluster}

-- Nothing has been deleted.
abbrev Intact : Cluster → Type 0
Intact w = w.deletions ≡ 0

put-Intact : (k : Kind) (o : Obj k) (w : Cluster) → Intact w → Intact (put k o w)
unfolding put
put-Intact stateful_set o w h = h
put-Intact service o w h = h
put-Intact autoscaler o w h = h
put-Intact secret o w h = h
put-Intact claim o w h = h
put-Intact music_service o w h = h

get-Intact : (k : Kind) (key : NamespacedName) → Keeps Intact (get k key)
unfolding get
get-Intact k key = record { at = λ w h. ground arith }

create-Intact : (k : Kind) (o : Obj k) → Keeps Intact (create k o)
unfolding create
create-Intact k o = record { at = λ w h. ground (arith, put-Intact k o w) }

update-Intact : (k : Kind) (o : Obj k) → Keeps Intact (update k o)
unfolding update
update-Intact k o = record { at = λ w h. ground (arith, put-Intact k o w) }

list-Intact : (namespace : String) → Keeps Intact (list_claims namespace)
unfolding list_claims
list-Intact namespace = record { at = λ w h. h }

-- The storage of "radio" is resized, never recreated.
pub resized : Recreates radio → ⊥
unfolding storage_update_policy database_storage_spec
resized (inl e) =
    ground (arith, eq_iff (storage_update_policy radio.spec.storage) storage_update_policy_recreate)
resized (inr e) = ground (
  arith,
  eq_iff (storage_update_policy (database_storage_spec radio)) storage_update_policy_recreate,
)

scaled : radio.spec.autoscaling ≡ none → ⊥
scaled e = ground arith

granted : Grants library memory radio Intact
granted = record {
  gets = get-Intact;
  lists = list-Intact;
  random = λ n. record { at = λ w h. h };
  creates = λ k o owned. create-Intact k o;
  updates_set = update-Intact stateful_set;
  updates_autoscaler = update-Intact autoscaler;
  updates_secret = update-Intact secret;
  grows = λ pvc old new found larger. update-Intact claim _;
  deletes_autoscaler = λ none_wanted. absurd (scaled none_wanted);
  deletes_set = λ recreates. absurd (resized recreates);
  deletes_claim = λ recreates. absurd (resized recreates);
}

reported : Reports memory Intact
reported = record {
  clock = record { at = λ w h. h };
  events = λ x type reason message. record { at = λ w h. h };
  statuses = update-Intact music_service;
}

reconcile_objects-Keeps_example : Keeps Intact (reconcile_objects library memory radio)
reconcile_objects-Keeps_example =
    reconcile_objects-Keeps library memory Intact reported radio granted

-- A server on which nothing can be created, with the service of "plain" in place.
abbrev refused : Error
refused = record { is_not_found = false; message = "forbidden" }

abbrev full : Client
full = record memory { create = λ k o w. (err refused, w) }

abbrev served : Cluster
served = record cluster {
  services = build_app_service library plain ∷ [];
  music_services = plain ∷ [];
}

abbrev service_step : Step full
service_step = record {
  subject = plain;
  reason = "ServiceFailed";
  run = App.reconcile_service library full plain;
}

abbrev set_step : Step full
set_step = record {
  subject = plain;
  reason = "StatefulSetFailed";
  run = App.reconcile_stateful_set library full plain;
}

abbrev autoscaler_step : Step full
autoscaler_step = record {
  subject = plain;
  reason = "AutoscalerFailed";
  run = App.reconcile_autoscaler library full plain;
}

plain-steps : steps library full plain ≡ (service_step ∷ []) ++ (set_step ∷ (autoscaler_step ∷ []))
unfolding steps
plain-steps = refl

service_there : service_step.run served ≡ (ok tt, served)
unfolding App.reconcile_service get App.app_key build_app_service
service_there = refl

set_refused : set_step.run served ≡ (err refused, served)
unfolding App.reconcile_stateful_set get build_app_stateful_set
set_refused = refl

unfoldable told : Outcome MusicService × Cluster
unfolding update_error
told = update_error full plain "StatefulSetFailed" "forbidden" served

abbrev result : Outcome MusicService → MusicService
result (ok ms) = ms
result _ = plain

told_run :
    update_error full plain "StatefulSetFailed" "forbidden" served ≡ (ok (result told.0), told.1)
unfolding told update
told_run = refl

reconcile_objects-stops_example :
    reconcile_objects library full plain served ≡ (ok no_requeue, told.1)
reconcile_objects-stops_example =
    reconcile_objects-stops library full plain (service_step ∷ []) (autoscaler_step ∷ []) set_step
      refused (result told.0) served served served told.1 plain-steps (next service_there none_left)
      set_refused told_run

abbrev leaving : MusicService
leaving = record radio { metadata = record (radio.metadata) { deletion_timestamp = some 990 } }

reconcile_found-deleting_example : Keeps Intact (reconcile_found library memory leaving)
reconcile_found-deleting_example =
    reconcile_found-deleting library memory leaving 990 Intact refl
      (λ x type reason message. record { at = λ w h. h }) (update-Intact music_service)
