-- ===== src/Status/Conditions.antt =====
-- internal/status/manager.go: `setCondition`.
pub mod Laws
use kind_music_streaming.Prelude.{String, List, [], ◌∷◌, ◌==◌, ◌===◌, if◌then◌else◌}
use kind_music_streaming.Kube.{Time, Condition}
use kind_music_streaming.Api.{MusicService}

-- The zero time is replaced by the current one.
stamped : Time → Condition → Condition
stamped now condition =
    if condition.last_transition_time == 0
    then record condition { last_transition_time = now }
    else condition

-- The loop: the first condition of the type is replaced, and keeps its time if it keeps its status.
place : Time → Condition → List Condition → List Condition
place now condition [] = condition ∷ []
place now condition (c ∷ conditions) =
    if c.type === condition.type
    then record condition {
      last_transition_time = if c.status === condition.status then c.last_transition_time else now;
    }
      ∷ conditions
    else c ∷ place now condition conditions

unfoldable pub set_condition : Time → Condition → List Condition → List Condition
unfolding stamped place
set_condition now condition conditions = place now (stamped now condition) conditions

-- A condition as the manager fills it in, with the zero time.
unfoldable pub condition_of : MusicService → String → String → String → String → Condition
condition_of ms type status reason message = record {
  type = type;
  status = status;
  observed_generation = ms.metadata.generation;
  last_transition_time = 0;
  reason = reason;
  message = message;
}

-- `setCondition(&ms.Status.Conditions, …)` at a time
unfoldable pub with_condition :
    Time → MusicService → String → String → String → String → MusicService
unfolding set_condition condition_of
with_condition now ms type status reason message = record ms {
  status = record (ms.status) {
    conditions =
        set_condition now (condition_of ms type status reason message) ms.status.conditions;
  };
}
