-- ===== src/DeepCopy/Memory.antt =====
-- The memory that zz_generated.deepcopy.go works on: typed cells at addresses, and how Go reads,
-- writes and allocates them. A dereferenced nil pointer is the outcome panic, and so is a pointer
-- to nothing.
use kind_music_streaming.Prelude.{
  ◌+◌, ◌≡◌, refl, Bool, Option, none, some, List, ◌==◌, if◌then◌else◌,
}
use kind_music_streaming.Prelude.Int.{ℤ}
use kind_music_streaming.Kube.{Time, Condition}
use kind_music_streaming.Api.{StreamingSpec, StorageSpec, DatabaseHighAvailabilitySpec}
use kind_music_streaming.Exec.{ok, panic, Exec}
use kind_music_streaming.DeepCopy.Structs.{
  Address, Pointer, Foreign, AutoscalingLayout, ReplicationLayout, DatabaseLayout,
  DatabaseStatusLayout, SpecLayout, StatusLayout, MusicServiceLayout, MusicServiceListLayout, Cell,
}

-- `next` is the address that is given out next.
pub record Memory (f : Foreign) : Type 0 where
  pub next : Address
  pub cell : Address → Option (Cell f)

-- How the values of a type lie in a cell.
pub record Stored (f : Foreign) (A : Type 0) : Type 0 where
  pub wrap : A → Cell f
  pub unwrap : Cell f → Option A
  pub unwrap-wrap : (a : A) → unwrap (wrap a) ≡ some a

module _ {f : Foreign} where
  unfoldable pub look : {A : Type 0} ⦃s : Stored f A⦄ → Memory f → Address → Option A
  look ⦃s⦄ h a = elim (h.cell a) [ none ↦ none | some c ↦ s.unwrap c ]

  unfoldable pub put : {A : Type 0} ⦃s : Stored f A⦄ → Memory f → Address → A → Memory f
  put ⦃s⦄ h a value = record h { cell = λ b. if b == a then some (s.wrap value) else h.cell b }

  -- `*p`
  unfoldable pub load : {A : Type 0} ⦃s : Stored f A⦄ → Pointer → Exec (Memory f) A
  unfolding look
  load none h = (panic, h)
  load (some a) h = elim (look h a) [ none ↦ (panic, h) | some value ↦ (ok value, h) ]

  -- `*p = value`, where `p` has been allocated
  unfoldable pub store : {A : Type 0} ⦃s : Stored f A⦄ → Address → A → Exec (Memory f) (Unit {0})
  unfolding put
  store a value h = (ok tt, put h a value)

  -- `new(T)` and `make([]T, n)`: an address that nothing else has. Its zero value is left out, so
  -- that reading it before it is written would panic.
  unfoldable pub new : Exec (Memory f) Address
  new h = (ok h.next, record h { next = h.next + 1 })

  instance abbrev pub int32_Stored : Stored f ℤ
  int32_Stored = record {
    wrap = Cell.int32;
    unwrap = λ c. elim c [ Cell.int32 v ↦ some v | _ ↦ none ];
    unwrap-wrap = λ a. refl;
  }

  instance abbrev pub bool_Stored : Stored f Bool
  bool_Stored = record {
    wrap = Cell.bool;
    unwrap = λ c. elim c [ Cell.bool v ↦ some v | _ ↦ none ];
    unwrap-wrap = λ a. refl;
  }

  instance abbrev pub time_Stored : Stored f Time
  time_Stored = record {
    wrap = Cell.time;
    unwrap = λ c. elim c [ Cell.time v ↦ some v | _ ↦ none ];
    unwrap-wrap = λ a. refl;
  }

  instance abbrev pub storage_Stored : Stored f StorageSpec
  storage_Stored = record {
    wrap = Cell.storage;
    unwrap = λ c. elim c [ Cell.storage v ↦ some v | _ ↦ none ];
    unwrap-wrap = λ a. refl;
  }

  instance abbrev pub streaming_Stored : Stored f StreamingSpec
  streaming_Stored = record {
    wrap = Cell.streaming;
    unwrap = λ c. elim c [ Cell.streaming v ↦ some v | _ ↦ none ];
    unwrap-wrap = λ a. refl;
  }

  instance abbrev pub high_availability_Stored : Stored f DatabaseHighAvailabilitySpec
  high_availability_Stored = record {
    wrap = Cell.high_availability;
    unwrap = λ c. elim c [ Cell.high_availability v ↦ some v | _ ↦ none ];
    unwrap-wrap = λ a. refl;
  }

  instance abbrev pub autoscaling_Stored : Stored f AutoscalingLayout
  autoscaling_Stored = record {
    wrap = Cell.autoscaling;
    unwrap = λ c. elim c [ Cell.autoscaling v ↦ some v | _ ↦ none ];
    unwrap-wrap = λ a. refl;
  }

  instance abbrev pub replication_Stored : Stored f ReplicationLayout
  replication_Stored = record {
    wrap = Cell.replication;
    unwrap = λ c. elim c [ Cell.replication v ↦ some v | _ ↦ none ];
    unwrap-wrap = λ a. refl;
  }

  instance abbrev pub database_Stored : Stored f DatabaseLayout
  database_Stored = record {
    wrap = Cell.database;
    unwrap = λ c. elim c [ Cell.database v ↦ some v | _ ↦ none ];
    unwrap-wrap = λ a. refl;
  }

  instance abbrev pub database_status_Stored : Stored f DatabaseStatusLayout
  database_status_Stored = record {
    wrap = Cell.database_status;
    unwrap = λ c. elim c [ Cell.database_status v ↦ some v | _ ↦ none ];
    unwrap-wrap = λ a. refl;
  }

  instance abbrev pub spec_Stored : Stored f SpecLayout
  spec_Stored = record {
    wrap = Cell.spec;
    unwrap = λ c. elim c [ Cell.spec v ↦ some v | _ ↦ none ];
    unwrap-wrap = λ a. refl;
  }

  instance abbrev pub status_Stored : Stored f StatusLayout
  status_Stored = record {
    wrap = Cell.status;
    unwrap = λ c. elim c [ Cell.status v ↦ some v | _ ↦ none ];
    unwrap-wrap = λ a. refl;
  }

  instance abbrev pub conditions_Stored : Stored f (List Condition)
  conditions_Stored = record {
    wrap = Cell.conditions;
    unwrap = λ c. elim c [ Cell.conditions v ↦ some v | _ ↦ none ];
    unwrap-wrap = λ a. refl;
  }

  instance abbrev pub items_Stored : Stored f (List (MusicServiceLayout f))
  items_Stored = record {
    wrap = Cell.items;
    unwrap = λ c. elim c [ Cell.items v ↦ some v | _ ↦ none ];
    unwrap-wrap = λ a. refl;
  }

  instance abbrev pub music_service_Stored : Stored f (MusicServiceLayout f)
  music_service_Stored = record {
    wrap = Cell.music_service;
    unwrap = λ c. elim c [ Cell.music_service v ↦ some v | _ ↦ none ];
    unwrap-wrap = λ a. refl;
  }

  instance abbrev pub music_service_list_Stored : Stored f (MusicServiceListLayout f)
  music_service_list_Stored = record {
    wrap = Cell.music_service_list;
    unwrap = λ c. elim c [ Cell.music_service_list v ↦ some v | _ ↦ none ];
    unwrap-wrap = λ a. refl;
  }

  abbrev pub resources_Stored : Stored f f.ResourcesLayout
  resources_Stored = record {
    wrap = Cell.resources;
    unwrap = λ c. elim c [ Cell.resources v ↦ some v | _ ↦ none ];
    unwrap-wrap = λ a. refl;
  }

  abbrev pub contents_Stored : Stored f f.Contents
  contents_Stored = record {
    wrap = Cell.contents;
    unwrap = λ c. elim c [ Cell.contents v ↦ some v | _ ↦ none ];
    unwrap-wrap = λ a. refl;
  }
