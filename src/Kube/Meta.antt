-- ===== src/Kube/Meta.antt =====
-- Metadata of objects, and status conditions (apimachinery's meta/v1).
use kind_music_streaming.Prelude.{ℕ, String, Bool, Option, List, Map}
use kind_music_streaming.Prelude.Int.{ℤ}

abbrev pub Time : Type 0
Time = ℕ

pub record GroupVersionKind : Type 0 where
  pub group : String
  pub version : String
  pub kind : String

pub record OwnerReference : Type 0 where
  pub api_version : String
  pub kind : String
  pub name : String
  pub uid : String
  pub controller : Option Bool
  pub block_owner_deletion : Option Bool

pub record ObjectMeta : Type 0 where
  pub name : String
  pub namespace : String
  pub uid : String
  pub generation : ℤ
  pub labels : Map String
  pub owner_references : List OwnerReference
  pub finalizers : List String
  pub deletion_timestamp : Option Time

-- `types.NamespacedName`
pub record NamespacedName : Type 0 where
  pub name : String
  pub namespace : String

pub record Condition : Type 0 where
  pub type : String
  pub status : String
  pub observed_generation : ℤ
  pub last_transition_time : Time
  pub reason : String
  pub message : String
