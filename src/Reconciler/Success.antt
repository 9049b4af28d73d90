-- ===== src/Reconciler/Success.antt =====
-- A server that does what can be done, and the reconciliation of a StatefulSet on it.
use kind_music_streaming.Prelude.{String, ◌≡◌, ◌≢◌, none, some, List, In}
use kind_music_streaming.Kube.{NamespacedName, PersistentVolumeClaim, StatefulSet}
use kind_music_streaming.Exec.{ok, Exec}
use kind_music_streaming.Platform.{Kind, stateful_set, claim, Obj, Client}
use kind_music_streaming.Platform.Lawful.{Lawful, key_of}
use kind_music_streaming.Reconciler.Quiet.{Answers}

-- The server reads what it holds, creates what is missing, updates what is there, and lists claims
-- that are there, as an API server does that can be reached, while nobody else writes the objects
-- and nothing is refused. To create what is there and to update what is missing may fail.
pub record Responsive (c : Client) (law : Lawful c) : Type 0 where
  pub answers : Answers c law
  pub creates :
      (k : Kind) (o : Obj k) (w : c.World)
      → law.view w k (key_of k o) ≡ none
      → (c.create k o w).0 ≡ ok tt
  pub updates :
      (k : Kind) (o : Obj k) (w : c.World)
      → law.view w k (key_of k o) ≢ none
      → (o' : Obj k) × ((c.update k o w).0 ≡ ok o')
  pub lists :
      (namespace : String) (w : c.World)
      → (items : List PersistentVolumeClaim) × ((c.list namespace w).0 ≡ ok items)
        × ((pvc : PersistentVolumeClaim)
            → In pvc items
            → law.view w claim (key_of claim pvc) ≢ none)

module _ (c : Client) (law : Lawful c) (responsive : Responsive c law) where
  module _ (key : NamespacedName) (sts : StatefulSet) where
    -- The StatefulSet is as it was read, and the claims are there.
    record Ready (pvcs : List PersistentVolumeClaim) (w : c.World) : Type 0 where
      holds : law.view w stateful_set key ≡ some sts
      there :
          (pvc : PersistentVolumeClaim) → In pvc pvcs → law.view w claim (key_of claim pvc) ≢ none

    -- The code returns from the state, and the StatefulSet and the claims are there afterwards.
    abbrev Goes : List PersistentVolumeClaim → Exec c.World (Unit {0}) → c.World → Type 0
    Goes pvcs code w = (w' : c.World) × (code w ≡ (ok tt, w')) × Ready pvcs w'
