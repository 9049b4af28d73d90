-- ===== src/Tests/Copied.antt =====
-- A list of one MusicService in memory, and the theorems on its copies.
use mathlib.Core.Option
use kind_music_streaming.Prelude.{
  ap, ◌≤◌, String, ◌≡◌, refl, Option, none, some, List, [], ◌∷◌, arith, ◌==◌, if◌then◌else◌,
}
use kind_music_streaming.Prelude.Int.{pos}
use kind_music_streaming.Api.{MusicService}
use kind_music_streaming.Exec.{ok}
use kind_music_streaming.DeepCopy.Structs.{Address, TypeMeta, MusicServiceLayout, Cell}
use kind_music_streaming.DeepCopy.Memory.{
  Memory, look, time_Stored, music_service_list_Stored, music_service_Stored,
}
use kind_music_streaming.DeepCopy.Generated.{
  Object, music_service_deep_copy_object, music_service_list_deep_copy_object,
}
use kind_music_streaming.DeepCopy.Reading.{
  read_slice, read_at, read_music_service, read_music_service_list, read_both, read_spec,
  read_status, read_elements, read_pointer, read_autoscaling,
}
use kind_music_streaming.DeepCopy.Copyable.{Agree, Reads}
use kind_music_streaming.DeepCopy.Separation.{
  overwrite, music_service_deep_copy_object-read_at, music_service_list_deep_copy_object-overwrite,
}
use kind_music_streaming.Tests.Examples.{meta, spec}
use kind_music_streaming.DeepCopy.Copyable.{Copies}
use kind_music_streaming.DeepCopy.All.{ApiType, deep_copy_of, read_of, deep_copy_of-Copies}
use kind_music_streaming.Tests.Copies.{labelled, read_labelled, copies, reads, copies-ForeignLaws}

-- A service with autoscaling and without a database; its labels are at 2, its autoscaling at 3.
abbrev laid_out : MusicServiceLayout labelled
laid_out = record {
  type_meta = record { kind = "MusicService"; api_version = "music.mixcorp.org/v1" };
  metadata = record { rest = meta "radio"; labels = some 2 };
  spec = record {
    replicas = spec.replicas;
    image = spec.image;
    port = spec.port;
    storage = spec.storage;
    streaming = spec.streaming;
    resources = none;
    autoscaling = some 3;
    database = none;
  };
  status = record {
    observed_generation = pos 3;
    desired_replicas = pos 2;
    ready_replicas = pos 2;
    phase = "Running";
    last_reconcile_time = some 5;
    last_error = "";
    conditions = none;
    database = none;
  };
}

abbrev listed : Cell labelled
listed = Cell.music_service_list (record {
  type_meta = record { kind = "MusicServiceList"; api_version = "music.mixcorp.org/v1" };
  metadata = "41";
  items = some 1;
})

abbrev autoscaled : Cell labelled
autoscaled = Cell.autoscaling (record {
  min_replicas = pos 2;
  max_replicas = pos 5;
  target_cpu_utilization_percentage = pos 70;
  target_memory_utilization_percentage = some 4;
})

abbrev cells : Address → Option (Cell labelled)
cells a =
    if a == 0
    then some listed
    else if a == 1
    then some (Cell.items (laid_out ∷ []))
    else if a == 2
    then some (Cell.contents (("tier", "audio") ∷ []))
    else if a == 3
    then some autoscaled
    else if a == 4
    then some (Cell.int32 (pos 80))
    else if a == 5
    then some (Cell.time 1000)
    else if a == 6
    then some (Cell.music_service laid_out)
    else none

abbrev allocated : Memory labelled
allocated = record { next = 7; cell = cells }

abbrev read_back : TypeMeta × MusicService
read_back = (
  record { kind = "MusicService"; api_version = "music.mixcorp.org/v1" },
  record {
    metadata = record (meta "radio") { labels = ("tier", "audio") ∷ [] };
    spec = record spec {
      resources = none;
      autoscaling = some (record {
        min_replicas = pos 2;
        max_replicas = pos 5;
        target_cpu_utilization_percentage = pos 70;
        target_memory_utilization_percentage = some (pos 80);
      });
      database = none;
    };
    status = record {
      observed_generation = pos 3;
      desired_replicas = pos 2;
      ready_replicas = pos 2;
      phase = "Running";
      last_reconcile_time = some 1000;
      last_error = "";
      conditions = [];
      database = none;
    };
  },
)

allocated-Reads : Reads 0 7 allocated (λ g. read_at (read_music_service reads) g 6) read_back
unfolding reads read_at look read_music_service read_both Option.bind read_spec read_status
    read_slice read_elements read_pointer read_autoscaling read_labelled
allocated-Reads g same = ground (
  arith,
  same 6 (omega arith) (omega arith),
  same 2 (omega arith) (omega arith),
  same 3 (omega arith) (omega arith),
  same 4 (omega arith) (omega arith),
  same 5 (omega arith) (omega arith),
)

abbrev list_read_back : TypeMeta × (String × List (TypeMeta × MusicService))
list_read_back = (
  record { kind = "MusicServiceList"; api_version = "music.mixcorp.org/v1" },
  ("41", read_back ∷ []),
)

allocated-Reads_list :
    Reads 0 7 allocated (λ g. read_at (read_music_service_list reads) g 0) list_read_back
unfolding reads read_at look read_music_service_list read_music_service read_both Option.bind
    read_spec read_status read_slice read_elements read_pointer read_autoscaling read_labelled
allocated-Reads_list g same = ground (
  arith,
  same 0 (omega arith) (omega arith),
  same 1 (omega arith) (omega arith),
  same 2 (omega arith) (omega arith),
  same 3 (omega arith) (omega arith),
  same 4 (omega arith) (omega arith),
  same 5 (omega arith) (omega arith),
)

music_service_deep_copy_object-read_at_example :
    (b : Address) × (after : Memory labelled) × (music_service_deep_copy_object copies
        (some 6)
        allocated
      ≡ (ok (some (Object.music_service b)), after))
    × (7 ≤ b)
    × Agree 0 7 after allocated
    × (read_at (read_music_service reads) after b ≡ some read_back)
    × (read_at (read_music_service reads) after 6 ≡ some read_back)
music_service_deep_copy_object-read_at_example =
    music_service_deep_copy_object-read_at copies-ForeignLaws allocated 6 read_back allocated-Reads

-- What the copy of the list leaves.
unfoldable after_list : Memory labelled
after_list = (music_service_list_deep_copy_object copies (some 0) allocated).1

list_copied :
    music_service_list_deep_copy_object copies (some 0) allocated
    ≡ (ok (some (Object.music_service_list 7)), after_list)
unfolding after_list music_service_list_deep_copy_object copies
list_copied = refl

music_service_list_deep_copy_object-overwrite_example :
    (read_at (read_music_service_list reads) (overwrite ((4, none) ∷ []) after_list) 7
      ≡ some list_read_back)
    × (read_at (read_music_service_list reads) (overwrite ((7, none) ∷ []) after_list) 0
        ≡ some list_read_back)
music_service_list_deep_copy_object-overwrite_example =
    music_service_list_deep_copy_object-overwrite copies-ForeignLaws allocated after_list 0 7
      list_read_back ((4, none) ∷ []) ((7, none) ∷ []) allocated-Reads_list list_copied
      (omega arith, tt) (omega arith, tt)

allocated-Reads_pointer :
    Reads 0 7 allocated (λ g. read_of reads ApiType.music_service g (some 6)) (some read_back)
unfolding read_of read_pointer
allocated-Reads_pointer g same = ap (Option.map some) (allocated-Reads g same)

deep_copy_of-Copies_example :
    Copies
      (deep_copy_of copies ApiType.music_service (some 6))
      (read_of reads ApiType.music_service)
      allocated
      (some read_back)
deep_copy_of-Copies_example =
    deep_copy_of-Copies copies-ForeignLaws ApiType.music_service allocated (some 6) (some read_back)
      allocated-Reads_pointer
