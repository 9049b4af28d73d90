-- ===== src/Status/Conditions/Laws.antt =====
-- What `setCondition` does to a list of conditions, by type.
use kind_music_streaming.Prelude.{
  String, ◌≡◌, Option, none, some, List, [], ◌∷◌, ◌==◌, ◌===◌, arith, eq_iff, if◌then◌else◌,
}
use kind_music_streaming.Kube.{Time, Condition}
use kind_music_streaming.Status.Conditions.{stamped, place, set_condition}

-- The first condition of a type.
unfoldable pub condition_at : String → List Condition → Option Condition
condition_at type [] = none
condition_at type (c ∷ conditions) =
    if c.type === type then some c else condition_at type conditions

-- The time of a condition that is set where there was another of its type, or none.
abbrev pub transition_time : Time → Condition → Option Condition → Time
transition_time now condition none =
    if condition.last_transition_time == 0 then now else condition.last_transition_time
transition_time now condition (some old) =
    if old.status === condition.status then old.last_transition_time else now

place_lem :
    (now : Time) (condition : Condition) (conditions : List Condition) (type : String)
    → condition_at type (place now (stamped now condition) conditions) ≡ (
        if condition.type === type
        then some (record condition {
          last_transition_time =
              transition_time now condition (condition_at condition.type conditions);
        })
        else condition_at type conditions)
unfolding condition_at place stamped
place_lem now condition [] type = ground arith
place_lem now condition (c ∷ conditions) type = ground (
  arith,
  eq_iff c.type condition.type,
  eq_iff c.type type,
  eq_iff condition.type type,
  place_lem now condition conditions type,
)

-- Afterwards the condition of its type is the new one, and those of other types are as before. Its
-- transition time is that of the old one if their statuses are equal, now if they differ, and,
-- without an old one, its own, or now if it has none.
pub condition_at-set_condition :
    (now : Time) (condition : Condition) (conditions : List Condition) (type : String)
    → condition_at type (set_condition now condition conditions) ≡ (
        if condition.type === type
        then some (record condition {
          last_transition_time =
              transition_time now condition (condition_at condition.type conditions);
        })
        else condition_at type conditions)
unfolding set_condition
condition_at-set_condition = place_lem

place_twice :
    (now later : Time) (condition : Condition) (conditions : List Condition)
    → place later (stamped later condition) (place now (stamped now condition) conditions)
      ≡ place now (stamped now condition) conditions
unfolding place stamped
place_twice now later condition [] =
    ground (arith, eq_iff condition.type condition.type, eq_iff condition.status condition.status)
place_twice now later condition (c ∷ conditions) = ground (
  arith,
  eq_iff c.type condition.type,
  eq_iff condition.type condition.type,
  eq_iff condition.status condition.status,
  place_twice now later condition conditions,
)

-- A condition that is set again, at whatever time, leaves the list as it is.
pub set_condition-set_condition :
    (now later : Time) (condition : Condition) (conditions : List Condition)
    → set_condition later condition (set_condition now condition conditions)
      ≡ set_condition now condition conditions
unfolding set_condition
set_condition-set_condition = place_twice

abbrev pub DistinctTypes : List Condition → Type 0
DistinctTypes [] = Unit
DistinctTypes (c ∷ conditions) = (condition_at c.type conditions ≡ none) × DistinctTypes conditions

place-DistinctTypes :
    (now : Time) (condition : Condition) (conditions : List Condition)
    → DistinctTypes conditions
    → DistinctTypes (place now (stamped now condition) conditions)
unfolding place stamped condition_at
place-DistinctTypes now condition [] h = ground arith
place-DistinctTypes now condition (c ∷ conditions) (fresh, rest) = ground (
  arith,
  eq_iff c.type condition.type,
  eq_iff condition.type c.type,
  place_lem now condition conditions c.type,
  place-DistinctTypes now condition conditions rest,
)

-- A list with one condition for each type stays one.
pub set_condition-DistinctTypes :
    (now : Time) (condition : Condition) (conditions : List Condition)
    → DistinctTypes conditions
    → DistinctTypes (set_condition now condition conditions)
unfolding set_condition
set_condition-DistinctTypes = place-DistinctTypes
