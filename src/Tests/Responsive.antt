-- ===== src/Tests/Responsive.antt =====
-- The server in memory does what can be done, and the StatefulSet of "radio" is reconciled.
use mathlib.Core.Option
use kind_music_streaming.Prelude.{some, [], ◌∷◌}
use kind_music_streaming.Prelude.Int.{pos}
use kind_music_streaming.Kube.{StatefulSet}
use kind_music_streaming.Tests.Memory.{Cluster}
use kind_music_streaming.Tests.Sizes.{small_set}
use kind_music_streaming.Tests.Examples.{cluster}

-- "radio" has a StatefulSet with fewer replicas and less storage than its spec asks for.
abbrev older : StatefulSet
older = record small_set { spec = record (small_set.spec) { replicas = some (pos 1) } }

unfoldable behind : Cluster
behind = record cluster { sets = older ∷ [] }
