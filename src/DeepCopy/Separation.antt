-- ===== src/DeepCopy/Separation.antt =====
-- DeepCopyObject of a MusicService and of a list of them, and what may be written afterwards.
use kind_music_streaming.Prelude.{
  ◌≤◌, ◌<◌, ◌≡◌, refl, sym, ap, ◌∙◌, Option, some, List, [], ◌∷◌, All, arith, ◌==◌, if◌then◌else◌,
}
use kind_music_streaming.Api.{MusicService}
use kind_music_streaming.Exec.{ok, pure, ◌>>=◌}
use kind_music_streaming.Exec.Inversion.{pure_ok}
use kind_music_streaming.DeepCopy.Structs.{Address, Foreign, TypeMeta, Cell}
use kind_music_streaming.DeepCopy.Memory.{Memory, music_service_Stored, music_service_list_Stored}
use kind_music_streaming.DeepCopy.Generated.{
  ForeignCopies, Object, music_service_deep_copy, music_service_deep_copy_object,
  music_service_list_deep_copy, music_service_list_deep_copy_object,
}
use kind_music_streaming.DeepCopy.Reading.{
  ForeignReads, read_at, read_music_service, read_music_service_list,
}
use kind_music_streaming.DeepCopy.Copyable.{Agree, Reads}
use kind_music_streaming.DeepCopy.Pointers.{Copies-address}
use kind_music_streaming.DeepCopy.Resources.{
  ForeignLaws, Copyable-music_service, Copyable-music_service_list,
}

module _ {f : Foreign} where
  -- What a program does to memory: it writes a cell at an address, or clears it.
  unfoldable pub overwrite : List (Address × Option (Cell f)) → Memory f → Memory f
  overwrite [] h = h
  overwrite ((a, c) ∷ writes) h =
      overwrite writes (record h { cell = λ b. if b == a then c else h.cell b })

  abbrev pub Below : Address → Address × Option (Cell f) → Type 0
  Below bound (a, _) = a < bound

  abbrev pub From : Address → Address × Option (Cell f) → Type 0
  From bound (a, _) = bound ≤ a

  overwrite-Below :
      (writes : List (Address × Option (Cell f))) (bound high : Address) (h : Memory f)
      → All (Below bound) writes
      → Agree bound high (overwrite writes h) h
  unfolding overwrite
  overwrite-Below [] bound high h below a l u = refl
  overwrite-Below ((b, c) ∷ writes) bound high h (first, rest) a l u =
      overwrite-Below writes bound high _ rest a l u ∙ ground (arith, first)

  overwrite-From :
      (writes : List (Address × Option (Cell f))) (bound : Address) (h : Memory f)
      → All (From bound) writes
      → Agree 0 bound (overwrite writes h) h
  unfolding overwrite
  overwrite-From [] bound h from a l u = refl
  overwrite-From ((b, c) ∷ writes) bound h (first, rest) a l u =
      overwrite-From writes bound _ rest a l u ∙ ground (arith, first)

list_injective :
    {a b : Address}
    → some (Object.music_service_list a) ≡ some (Object.music_service_list b)
    → a ≡ b
list_injective e = ground arith

module _ {f : Foreign} {o : ForeignCopies f} {r : ForeignReads f} (laws : ForeignLaws o r) where
  -- Where allocated memory holds a MusicService at an address, DeepCopyObject returns an object at
  -- an address that was free, which reads as the same MusicService, its TypeMeta included. No cell
  -- that was allocated before has changed, and the original reads as it did.
  pub music_service_deep_copy_object-read_at :
      (h : Memory f) (a : Address) (v : TypeMeta × MusicService)
      → Reads 0 h.next h (λ g. read_at (read_music_service r) g a) v
      → (b : Address) × (after : Memory f) × (music_service_deep_copy_object o (some a) h
          ≡ (ok (some (Object.music_service b)), after))
        × (h.next ≤ b)
        × Agree 0 h.next after h
        × (read_at (read_music_service r) after b ≡ some v)
        × (read_at (read_music_service r) after a ≡ some v)
  unfolding music_service_deep_copy_object music_service_deep_copy ◌>>=◌ pure
  music_service_deep_copy_object-read_at h a v reads =
      let (b, after, runs, fresh, extends, copied) =
        Copies-address (read_music_service r) (Copyable-music_service laws) h a reads in
      (
        b,
        after,
        rw runs,
        fresh,
        extends.keeps,
        copied after (λ c l u. refl),
        reads after extends.keeps,
      )

  list_runs :
      (h after : Memory f) (a b : Address)
      → music_service_list_deep_copy o (some a) h ≡ (ok (some b), after)
      → pure (some (Object.music_service_list b)) after
        ≡ music_service_list_deep_copy_object o (some a) h
  unfolding music_service_list_deep_copy_object ◌>>=◌ pure
  list_runs h after a b runs = rw runs

  -- Where allocated memory holds a list of MusicServices at an address, and DeepCopyObject has
  -- returned a copy: whatever is then written to the cells that were there before, the copy reads
  -- as the list did; and whatever is written to the other cells, the original reads as it did.
  pub music_service_list_deep_copy_object-overwrite :
      (h after : Memory f) (a b : Address)
      (v : TypeMeta × (f.ListMeta × List (TypeMeta × MusicService)))
      (old new : List (Address × Option (Cell f)))
      → Reads 0 h.next h (λ g. read_at (read_music_service_list r) g a) v
      → music_service_list_deep_copy_object o (some a) h
        ≡ (ok (some (Object.music_service_list b)), after)
      → All (Below h.next) old
      → All (From h.next) new
      → (read_at (read_music_service_list r) (overwrite old after) b ≡ some v)
        × (read_at (read_music_service_list r) (overwrite new after) a ≡ some v)
  unfolding music_service_list_deep_copy
  music_service_list_deep_copy_object-overwrite h after a b v old new reads run below from =
      let (b', after', runs, fresh, extends, copied) =
        Copies-address (read_music_service_list r) (Copyable-music_service_list laws) h a reads in
      let (same, ends) = pure_ok _ _ after' after (list_runs h after' a b' runs ∙ run) in
      (
        ap (λ c. read_at (read_music_service_list r) (overwrite old after) c)
              (list_injective (sym same))
            ∙ copied (overwrite old after) (λ c l u.
              overwrite-Below old h.next after'.next after below c l u
              ∙ ap (λ m. m.cell c) (sym ends)),
        reads (overwrite new after) λ c l u.
            overwrite-From new h.next after from c l u
            ∙ ap (λ m. m.cell c) (sym ends)
            ∙ extends.keeps c l u,
      )
