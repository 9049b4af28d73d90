-- ===== src/DeepCopy/Generated.antt =====
-- api/v1/zz_generated.deepcopy.go: the functions. DeepCopyInto takes the struct that its receiver
-- points to and returns the one that it leaves in `*out`; DeepCopy works on pointers.
use kind_music_streaming.Prelude.{Option, none, some, List, [], ◌∷◌}
use kind_music_streaming.Kube.{Condition}
use kind_music_streaming.Api.{StreamingSpec, StorageSpec, DatabaseHighAvailabilitySpec}
use kind_music_streaming.Exec.{Exec, pure, ◌>>=◌, ◌>>◌}
use kind_music_streaming.DeepCopy.Structs.{
  Address, Pointer, Foreign, AutoscalingLayout, ReplicationLayout, DatabaseLayout,
  DatabaseStatusLayout, SpecLayout, StatusLayout, MusicServiceLayout, MusicServiceListLayout,
}
use kind_music_streaming.DeepCopy.Memory.{
  Memory, Stored, load, store, new, int32_Stored, bool_Stored, storage_Stored, streaming_Stored,
  high_availability_Stored, autoscaling_Stored, replication_Stored, database_Stored,
  database_status_Stored, spec_Stored, status_Stored, resources_Stored, conditions_Stored,
  items_Stored, music_service_Stored, music_service_list_Stored,
}

-- The copies of other packages: DeepCopyInto of `metav1.ObjectMeta`, `metav1.ListMeta`,
-- `corev1.ResourceRequirements` and `metav1.Condition`, DeepCopy of `metav1.Time`.
pub record ForeignCopies (f : Foreign) : Type 0 where
  pub meta_deep_copy_into : f.MetaLayout → Exec (Memory f) f.MetaLayout
  pub list_meta_deep_copy_into : f.ListMetaLayout → Exec (Memory f) f.ListMetaLayout
  pub resources_deep_copy_into : f.ResourcesLayout → Exec (Memory f) f.ResourcesLayout
  pub condition_deep_copy_into : Condition → Exec (Memory f) Condition
  pub time_deep_copy : Pointer → Exec (Memory f) Pointer

module _ {f : Foreign} {A : Type 0} ⦃s : Stored f A⦄ where
  -- `if in.X != nil { *out = new(T); (*in).DeepCopyInto(*out) }`, and DeepCopy itself. Where the
  -- code has `**out = **in`, `copy_into` is `pure`; for a slice, which has `make` in place of `new`,
  -- it is the loop over the elements.
  unfoldable pub copy_pointer : (A → Exec (Memory f) A) → Pointer → Exec (Memory f) Pointer
  unfolding ◌>>=◌ load store new pure
  copy_pointer copy_into none = pure none
  copy_pointer copy_into (some a) = do
    out ← new
    value ← load (some a)
    copied ← copy_into value
    store out copied
    pure (some out)

-- `if in.X != nil { *out = (*in).DeepCopy() }`
unfoldable pub copy_present :
    {f : Foreign} → (Pointer → Exec (Memory f) Pointer) → Pointer → Exec (Memory f) Pointer
unfolding pure
copy_present deep_copy none = pure none
copy_present deep_copy (some a) = deep_copy (some a)

-- `for i := range *in { (*in)[i].DeepCopyInto(&(*out)[i]) }`
unfoldable pub copy_elements :
    {f : Foreign} {A : Type 0} → (A → Exec (Memory f) A) → List A → Exec (Memory f) (List A)
unfolding ◌>>=◌ pure
copy_elements copy_into [] = pure []
copy_elements copy_into (x ∷ xs) = do
  y ← copy_into x
  ys ← copy_elements copy_into xs
  pure (y ∷ ys)

-- A `runtime.Object` that is not nil.
pub data Object : Type 0 where
  music_service : Address → Object
  music_service_list : Address → Object

-- `if c := in.DeepCopy(); c != nil { return c }; return nil`
abbrev pub as_object : (Address → Object) → Pointer → Option Object
as_object object none = none
as_object object (some a) = some (object a)

module _ {f : Foreign} where
  unfoldable pub streaming_deep_copy_into : StreamingSpec → Exec (Memory f) StreamingSpec
  unfolding pure
  streaming_deep_copy_into streaming = pure streaming

  unfoldable pub streaming_deep_copy : Pointer → Exec (Memory f) Pointer
  unfolding copy_pointer streaming_deep_copy_into
  streaming_deep_copy streaming = copy_pointer streaming_deep_copy_into streaming

  unfoldable pub storage_deep_copy_into : StorageSpec → Exec (Memory f) StorageSpec
  unfolding pure
  storage_deep_copy_into storage = pure storage

  unfoldable pub storage_deep_copy : Pointer → Exec (Memory f) Pointer
  unfolding copy_pointer storage_deep_copy_into
  storage_deep_copy storage = copy_pointer storage_deep_copy_into storage

  unfoldable pub high_availability_deep_copy_into :
      DatabaseHighAvailabilitySpec → Exec (Memory f) DatabaseHighAvailabilitySpec
  unfolding pure
  high_availability_deep_copy_into config = pure config

  unfoldable pub high_availability_deep_copy : Pointer → Exec (Memory f) Pointer
  unfolding copy_pointer high_availability_deep_copy_into
  high_availability_deep_copy config = copy_pointer high_availability_deep_copy_into config

  unfoldable pub autoscaling_deep_copy_into : AutoscalingLayout → Exec (Memory f) AutoscalingLayout
  unfolding ◌>>=◌ pure copy_pointer
  autoscaling_deep_copy_into config = do
    target ← copy_pointer ⦃s = int32_Stored⦄ pure config.target_memory_utilization_percentage
    pure (record config { target_memory_utilization_percentage = target })

  unfoldable pub autoscaling_deep_copy : Pointer → Exec (Memory f) Pointer
  unfolding copy_pointer autoscaling_deep_copy_into
  autoscaling_deep_copy config = copy_pointer autoscaling_deep_copy_into config

  unfoldable pub replication_deep_copy_into : ReplicationLayout → Exec (Memory f) ReplicationLayout
  unfolding ◌>>=◌ pure copy_pointer
  replication_deep_copy_into config = do
    enabled ← copy_pointer ⦃s = bool_Stored⦄ pure config.enabled
    gtid ← copy_pointer ⦃s = bool_Stored⦄ pure config.gtid
    pure (record config { enabled = enabled; gtid = gtid })

  unfoldable pub replication_deep_copy : Pointer → Exec (Memory f) Pointer
  unfolding copy_pointer replication_deep_copy_into
  replication_deep_copy config = copy_pointer replication_deep_copy_into config

  unfoldable pub database_deep_copy_into : DatabaseLayout → Exec (Memory f) DatabaseLayout
  unfolding ◌>>=◌ pure copy_pointer replication_deep_copy_into autoscaling_deep_copy_into
  database_deep_copy_into config = do
    storage ← copy_pointer ⦃s = storage_Stored⦄ pure config.storage
    replication ← copy_pointer replication_deep_copy_into config.replication
    autoscaling ← copy_pointer autoscaling_deep_copy_into config.autoscaling
    high_availability ← copy_pointer ⦃s = high_availability_Stored⦄ pure config.high_availability
    pure (record config {
      storage = storage;
      replication = replication;
      autoscaling = autoscaling;
      high_availability = high_availability;
    })

  unfoldable pub database_deep_copy : Pointer → Exec (Memory f) Pointer
  unfolding copy_pointer database_deep_copy_into
  database_deep_copy config = copy_pointer database_deep_copy_into config

module _ {f : Foreign} (o : ForeignCopies f) where
  unfoldable pub database_status_deep_copy_into :
      DatabaseStatusLayout → Exec (Memory f) DatabaseStatusLayout
  unfolding ◌>>=◌ pure copy_present
  database_status_deep_copy_into status = do
    seen ← copy_present o.time_deep_copy status.replica_last_seen
    pure (record status { replica_last_seen = seen })

  unfoldable pub database_status_deep_copy : Pointer → Exec (Memory f) Pointer
  unfolding copy_pointer database_status_deep_copy_into
  database_status_deep_copy status = copy_pointer database_status_deep_copy_into status

  unfoldable pub spec_deep_copy_into : SpecLayout → Exec (Memory f) SpecLayout
  unfolding ◌>>=◌ pure copy_pointer autoscaling_deep_copy_into database_deep_copy_into
  spec_deep_copy_into spec = do
    resources ← copy_pointer ⦃s = resources_Stored⦄ o.resources_deep_copy_into spec.resources
    autoscaling ← copy_pointer autoscaling_deep_copy_into spec.autoscaling
    database ← copy_pointer database_deep_copy_into spec.database
    pure (record spec { resources = resources; autoscaling = autoscaling; database = database })

  unfoldable pub spec_deep_copy : Pointer → Exec (Memory f) Pointer
  unfolding copy_pointer spec_deep_copy_into
  spec_deep_copy spec = copy_pointer spec_deep_copy_into spec

  unfoldable pub status_deep_copy_into : StatusLayout → Exec (Memory f) StatusLayout
  unfolding ◌>>=◌ pure copy_present copy_pointer copy_elements database_status_deep_copy_into
  status_deep_copy_into status = do
    time ← copy_present o.time_deep_copy status.last_reconcile_time
    conditions ←
        copy_pointer ⦃s = conditions_Stored⦄ (copy_elements o.condition_deep_copy_into)
          status.conditions
    database ← copy_pointer database_status_deep_copy_into status.database
    pure
        (record status { last_reconcile_time = time; conditions = conditions; database = database })

  unfoldable pub status_deep_copy : Pointer → Exec (Memory f) Pointer
  unfolding copy_pointer status_deep_copy_into
  status_deep_copy status = copy_pointer status_deep_copy_into status

  unfoldable pub music_service_deep_copy_into :
      MusicServiceLayout f → Exec (Memory f) (MusicServiceLayout f)
  unfolding ◌>>=◌ pure spec_deep_copy_into status_deep_copy_into
  music_service_deep_copy_into music = do
    metadata ← o.meta_deep_copy_into music.metadata
    spec ← spec_deep_copy_into music.spec
    status ← status_deep_copy_into music.status
    pure (record music { metadata = metadata; spec = spec; status = status })

  unfoldable pub music_service_deep_copy : Pointer → Exec (Memory f) Pointer
  unfolding copy_pointer music_service_deep_copy_into
  music_service_deep_copy music = copy_pointer music_service_deep_copy_into music

  unfoldable pub music_service_deep_copy_object : Pointer → Exec (Memory f) (Option Object)
  unfolding ◌>>=◌ pure music_service_deep_copy
  music_service_deep_copy_object music = do
    c ← music_service_deep_copy music
    pure (as_object Object.music_service c)

  unfoldable pub music_service_list_deep_copy_into :
      MusicServiceListLayout f → Exec (Memory f) (MusicServiceListLayout f)
  unfolding ◌>>=◌ pure copy_pointer copy_elements music_service_deep_copy_into
  music_service_list_deep_copy_into list = do
    metadata ← o.list_meta_deep_copy_into list.metadata
    items ← copy_pointer (copy_elements music_service_deep_copy_into) list.items
    pure (record list { metadata = metadata; items = items })

  unfoldable pub music_service_list_deep_copy : Pointer → Exec (Memory f) Pointer
  unfolding copy_pointer music_service_list_deep_copy_into
  music_service_list_deep_copy list = copy_pointer music_service_list_deep_copy_into list

  unfoldable pub music_service_list_deep_copy_object : Pointer → Exec (Memory f) (Option Object)
  unfolding ◌>>=◌ pure music_service_list_deep_copy
  music_service_list_deep_copy_object list = do
    c ← music_service_list_deep_copy list
    pure (as_object Object.music_service_list c)
