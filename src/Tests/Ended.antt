-- ===== src/Tests/Ended.antt =====
-- The end of a round, on the server in memory.
use kind_music_streaming.Prelude.{◌≡◌, refl}
use kind_music_streaming.Exec.{Outcome, ok}
use kind_music_streaming.Controller.{Result, finish}
use kind_music_streaming.Controller.Delay.{Paces, finish-Paces}
use kind_music_streaming.Tests.Memory.{Cluster, get, update, memory}
use kind_music_streaming.Tests.Examples.{library, plain, cluster}

unfoldable ended : Outcome Result × Cluster
unfolding finish
ended = finish library memory plain cluster

abbrev soon : Result
soon = record { requeue_after = 5 }

ended_run : finish library memory plain cluster ≡ (ok soon, ended.1)
unfolding ended finish get update
ended_run = refl

-- There is no StatefulSet yet, so that the next round comes after 5 seconds.
finish-Paces_example : Paces memory ended.1 soon
finish-Paces_example = finish-Paces library memory plain soon cluster ended.1 ended_run
