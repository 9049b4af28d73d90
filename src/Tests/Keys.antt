-- ===== src/Tests/Keys.antt =====
-- Objects and keys in the lists of the server in memory.
use kind_music_streaming.Prelude.{ℕ, ◌≡◌, ◌≢◌, refl, true, none, List, [], ◌∷◌, arith, eq_iff, ◌↔◌}
use kind_music_streaming.Kube.{NamespacedName}
use kind_music_streaming.Platform.{
  Kind, stateful_set, service, autoscaler, secret, claim, music_service, Obj,
}
use kind_music_streaming.Platform.Lawful.{key_of}
use kind_music_streaming.Tests.Memory.{Cluster, objects, with_objects, same_key, find, remove}

pub same_key_iff : (a b : NamespacedName) → (same_key a b ≡ true) ↔ (a ≡ b)
same_key_iff a b = ground (arith, eq_iff a.name b.name, eq_iff a.namespace b.namespace)

pub objects-with : (k : Kind) (l : List (Obj k)) (w : Cluster) → objects k (with_objects k l w) ≡ l
objects-with stateful_set l w = refl
objects-with service l w = refl
objects-with autoscaler l w = refl
objects-with secret l w = refl
objects-with claim l w = refl
objects-with music_service l w = refl

objects-counted :
    (k : Kind) (n : ℕ) (w : Cluster) → objects k (record w { deletions = n }) ≡ objects k w
objects-counted stateful_set n w = refl
objects-counted _ n w = refl

pub find-remove_self :
    (k : Kind) (key : NamespacedName) (l : List (Obj k)) → find k key (remove k key l) ≡ none
unfolding find remove
find-remove_self k key [] = refl
find-remove_self k key (o ∷ l) = ground (arith, find-remove_self k key l)

pub find-remove_ne :
    (k : Kind) (key other : NamespacedName) (l : List (Obj k))
    → other ≢ key
    → find k other (remove k key l) ≡ find k other l
unfolding find remove
find-remove_ne k key other [] h = refl
find-remove_ne k key other (o ∷ l) h = ground (
  arith,
  find-remove_ne k key other l h,
  same_key_iff (key_of k o) key,
  same_key_iff (key_of k o) other,
)
