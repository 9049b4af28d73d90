-- ===== src/Tests/Copies.antt =====
-- Copies of metadata with labels that lie elsewhere in memory.
use mathlib.Core.Option
use kind_music_streaming.Prelude.{String, refl, Option, Map}
use kind_music_streaming.Kube.{ObjectMeta, ResourceRequirements}
use kind_music_streaming.Exec.{Exec, pure, ◌>>=◌}
use kind_music_streaming.DeepCopy.Structs.{Pointer, Foreign}
use kind_music_streaming.DeepCopy.Memory.{
  Memory, contents_Stored, time_Stored, music_service_list_Stored, music_service_Stored,
}
use kind_music_streaming.DeepCopy.Generated.{ForeignCopies, copy_pointer, copy_elements}
use kind_music_streaming.DeepCopy.Reading.{ForeignReads, plain, read_slice}
use kind_music_streaming.DeepCopy.Pointers.{Copyable-plain}
use kind_music_streaming.DeepCopy.Rules.{Struct, Copyable-pointer, Copyable-slice, Copyable-struct}
use kind_music_streaming.DeepCopy.Resources.{ForeignLaws}

-- Metadata whose labels lie elsewhere in memory.
pub record LabelledMeta : Type 0 where
  pub rest : ObjectMeta
  pub labels : Pointer

abbrev pub labelled : Foreign
labelled = record {
  MetaLayout = LabelledMeta;
  ListMetaLayout = String;
  ListMeta = String;
  ResourcesLayout = ResourceRequirements;
  Contents = Map String;
}

unfoldable copy_meta : LabelledMeta → Exec (Memory labelled) LabelledMeta
unfolding ◌>>=◌ pure copy_pointer copy_elements
copy_meta m = do
  labels ← copy_pointer ⦃s = contents_Stored⦄ (copy_elements pure) m.labels
  pure (record m { labels = labels })

unfoldable pub read_labelled : Memory labelled → LabelledMeta → Option ObjectMeta
unfolding read_slice
read_labelled h m =
    Option.map (λ labels. record m.rest { labels = labels })
      (read_slice ⦃s = contents_Stored⦄ plain h m.labels)

abbrev meta_struct : Struct LabelledMeta Pointer ObjectMeta (Map String)
meta_struct = record {
  part = λ t. t.labels;
  set = λ t s. record t { labels = s };
  value = λ t w. record t.rest { labels = w };
  parts = λ v. v.labels;
  part-set = λ t s. refl;
  value-set = λ t s w. refl;
  parts-value = λ t w. refl;
}

unfoldable pub copies : ForeignCopies labelled
unfolding copy_meta pure copy_pointer
copies = record {
  meta_deep_copy_into = copy_meta;
  list_meta_deep_copy_into = pure;
  resources_deep_copy_into = pure;
  condition_deep_copy_into = pure;
  time_deep_copy = copy_pointer ⦃s = time_Stored⦄ pure;
}

unfoldable pub reads : ForeignReads labelled
unfolding read_labelled
reads = record { read_meta = read_labelled; read_list_meta = plain; read_resources = plain }

pub copies-ForeignLaws : ForeignLaws copies reads
unfolding copies reads copy_meta read_labelled
copies-ForeignLaws = record {
  meta =
      Copyable-struct meta_struct (λ t h. refl) (λ t h. refl)
        (Copyable-slice ⦃s = contents_Stored⦄ Copyable-plain);
  list_meta = Copyable-plain;
  resources = Copyable-plain;
  condition = Copyable-plain;
  time = Copyable-pointer ⦃s = time_Stored⦄ Copyable-plain;
}
