-- ===== src/Tests/Validation.antt =====
-- The specs that a server admits, with the evidence.
use kind_music_streaming.Prelude.{
  ℕ, ◌≤◌, String, ◌≡◌, refl, Option, none, some, arith, leb, Bool-cases, inl, inr,
}
use kind_music_streaming.Prelude.Int.{ℤ, pos, negsuc}
use kind_music_streaming.Kube.{Quantity}
use kind_music_streaming.Api.{StorageSpec, DatabaseSpec, MusicService}
use kind_music_streaming.Builder.{IsQuantity, IsDatabase, IsBuildable}
use kind_music_streaming.Tests.Examples.{library, parse}

read_quantity : (s : String) (o : Option Quantity) → parse s ≡ o → Option (IsQuantity library s)
read_quantity s none e = none
read_quantity s (some q) e = some (q, e)

read_storage :
    (o : Option StorageSpec) → Option ((s : StorageSpec) → o ≡ some s → IsQuantity library s.size)
read_storage none = some (λ s e. absurd (ground arith))
read_storage (some s) = elim (read_quantity s.size (parse s.size) refl) [
  | none ↦ none
  | some q ↦ some (λ s' e. let same : s ≡ s' = ground arith in rw (← same) q)
]

read_count : (r : ℤ) → Option ((n : ℕ) × (r ≡ pos n) × (n ≤ 10))
read_count (pos n) = elim (Bool-cases (leb n 10)) [
  | inl few ↦ some (n, refl, ground arith)
  | inr many ↦ none
]
read_count (negsuc n) = none

read_database :
    (o : Option DatabaseSpec) → Option ((db : DatabaseSpec) → o ≡ some db → IsDatabase library db)
read_database none = some (λ db e. absurd (ground arith))
read_database (some x) = elim (read_storage x.storage) [
  | none ↦ none
  | some fits ↦ elim (read_count x.replicas) [
    | none ↦ none
    | some (n, e, few) ↦ some (λ db same.
        let found : x ≡ db = ground arith in
        rw (← found) (record { storage = fits; count = n; replicas = e; few = few }))
  ]
]

pub read_spec : (ms : MusicService) → Option (IsBuildable library ms.spec)
read_spec ms = elim (read_quantity ms.spec.storage.size (parse ms.spec.storage.size) refl) [
  | none ↦ none
  | some size ↦ elim (read_database ms.spec.database) [
    | none ↦ none
    | some fits ↦ some (record { size = size; default = (_, refl); database = fits })
  ]
]
