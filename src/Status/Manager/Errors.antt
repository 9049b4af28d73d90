-- ===== src/Status/Manager/Errors.antt =====
-- What the report of an error says.
use kind_music_streaming.Prelude.{String, ◌≡◌, refl, some, arith}
use kind_music_streaming.Kube.{Time, Condition}
use kind_music_streaming.Api.{MusicService}
use kind_music_streaming.Exec.{ok}
use kind_music_streaming.Platform.{Library, Client}
use kind_music_streaming.Status.Conditions.{condition_of, with_condition}
use kind_music_streaming.Status.Conditions.Laws.{
  condition_at, transition_time, condition_at-set_condition,
}
use kind_music_streaming.Status.Manager.{update_error, as_failed}

-- A status that tells of an error.
pub record Tells (ms x : MusicService) (reason message : String) : Type 0 where
  pub condition : Condition
  pub spec : x.spec ≡ ms.spec
  pub metadata : x.metadata ≡ ms.metadata
  pub phase : x.status.phase ≡ "Failed"
  pub last_error : x.status.last_error ≡ message
  pub has_condition : condition_at "Reconciled" x.status.conditions ≡ some condition
  pub failed :
      (condition.status ≡ "False") × (condition.reason ≡ reason) × (condition.message ≡ message)

-- While the clock runs, the error of a round is reported by one call, which writes the status: the
-- phase is "Failed", and the error is in the last error and in the condition "Reconciled", which is
-- "False".
pub update_error-Tells :
    (lib : Library) (c : Client) (ms : MusicService) (reason message : String) (t t' : Time)
    (w w₁ w₂ : c.World)
    → c.now w ≡ (ok t, w₁)
    → c.now w₁ ≡ (ok t', w₂)
    → (x : MusicService) × (update_error c ms reason message w ≡ c.update_status x w₂)
      × Tells ms x reason message
unfolding update_error
update_error-Tells lib c ms reason message t t' w w₁ w₂ first second =
    let failed = as_failed t message ms in
    let given = condition_of failed "Reconciled" "False" reason message in
    (
      with_condition t' failed "Reconciled" "False" reason message,
      ground arith,
      record {
        condition = record given {
          last_transition_time =
              transition_time t' given (condition_at "Reconciled" ms.status.conditions);
        };
        spec = refl;
        metadata = refl;
        phase = refl;
        last_error = refl;
        has_condition = condition_at-set_condition t' given ms.status.conditions "Reconciled";
        failed = (refl, refl, refl);
      },
    )
