-- ===== src/DeepCopy/Rules.antt =====
-- Rules for copies: pointers, slices, pairs, and structs.
use mathlib.Core.Option
use kind_music_streaming.Prelude.{
  ◌≡◌, ◌≢◌, refl, sym, ap, ◌∙◌, arith, Option, none, some, List, [], ◌∷◌,
}
use kind_music_streaming.Exec.{ok, Exec, pure, ◌>>=◌}
use kind_music_streaming.DeepCopy.Structs.{Pointer, Foreign}
use kind_music_streaming.DeepCopy.Memory.{Memory, Stored}
use kind_music_streaming.DeepCopy.Generated.{copy_pointer, copy_present, copy_elements}
use kind_music_streaming.DeepCopy.Reading.{read_at, read_pointer, read_elements, read_slice}
use kind_music_streaming.DeepCopy.Copyable.{Copyable}
use kind_music_streaming.DeepCopy.Pointers.{Copies-pure, Copies-address}
use kind_music_streaming.DeepCopy.Pairs.{CopiesBoth-Copyable}

cons_parts :
    {V : Type 0} {v : V} {vs : List V} (o : Option V) (p : Option (List V))
    → Option.bind o (λ x. Option.map (λ y. x ∷ y) p) ≡ some (v ∷ vs)
    → (o ≡ some v) × (p ≡ some vs)
unfolding Option.bind
cons_parts none p e = absurd (Option.none-ne-some _ e)
cons_parts (some x) none e = absurd (Option.none-ne-some _ e)
cons_parts (some x) (some y) e = grind arith

cons_not_nil :
    {V : Type 0} (o : Option V) (p : Option (List V))
    → Option.bind o (λ x. Option.map (λ y. x ∷ y) p) ≢ some []
unfolding Option.bind
cons_not_nil none p e = absurd (Option.none-ne-some _ e)
cons_not_nil (some x) none e = absurd (Option.none-ne-some _ e)
cons_not_nil (some x) (some y) e = grind arith

module _ {V : Type 0} where
  value_mapped : (o : Option V) (w : V) → Option.map some o ≡ some (some w) → o ≡ some w
  value_mapped none w e = absurd (Option.none-ne-some _ e)
  value_mapped (some x) w e = Option.some-injective _ _ e

  nothing_mapped : (o : Option V) → Option.map some o ≢ some none
  nothing_mapped none e = Option.none-ne-some _ e
  nothing_mapped (some x) e = Option.some-ne-none _ (Option.some-injective _ _ e)

module _ {f : Foreign} where
  module _ {A V : Type 0} ⦃s : Stored f A⦄ {read : Memory f → A → Option V} where
    pub Copyable-pointer :
        {copy_into : A → Exec (Memory f) A}
        → Copyable copy_into read
        → Copyable (copy_pointer copy_into) (read_pointer read)
    unfolding copy_pointer read_pointer
    Copyable-pointer copyable h none v r = Copies-pure h none λ g _. r h λ a l u. refl
    Copyable-pointer copyable h (some a) none r =
        absurd (nothing_mapped (read_at read h a) (r h λ b l u. refl))
    Copyable-pointer copyable h (some a) (some w) r =
        let (b, after, runs, _, extends, reads) =
          Copies-address read copyable h a λ g same. value_mapped (read_at read g a) w (r g same) in
        record {
          out = some b;
          after = after;
          runs = runs;
          extends = extends;
          reads = λ g same. ap (Option.map some) (reads g same);
        }

  module _ {A V : Type 0} {read : Memory f → A → Option V} {copy : A → Exec (Memory f) A} where
    pub Copyable-elements : Copyable copy read → Copyable (copy_elements copy) (read_elements read)
    unfolding copy_elements read_elements ◌>>=◌ pure
    Copyable-elements copyable h [] v r = Copies-pure h [] λ g _. r h λ a l u. refl
    Copyable-elements copyable h (x ∷ xs) [] r =
        absurd (cons_not_nil (read h x) (read_elements read h xs) (r h λ b l u. refl))
    Copyable-elements copyable h (x ∷ xs) (v ∷ vs) r =
        let c =
          CopiesBoth-Copyable {copy_second = copy_elements copy} copyable
            (λ k. Copyable-elements copyable k xs vs) h
            (λ g same. (cons_parts (read g x) (read_elements read g xs) (r g same)).0)
            (λ g same. (cons_parts (read g x) (read_elements read g xs) (r g same)).1) in
        record {
          out = c.first ∷ c.second;
          after = c.after;
          runs = rw (c.runs_first, c.runs_second);
          extends = c.extends;
          reads = λ g same. rw (c.reads_first g same, c.reads_second g same);
        }

    pub Copyable-slice :
        ⦃s : Stored f (List A)⦄
        → Copyable copy read
        → Copyable (copy_pointer (copy_elements copy)) (read_slice read)
    unfolding copy_pointer read_slice
    Copyable-slice copyable h none v r = Copies-pure h none λ g _. r h λ a l u. refl
    Copyable-slice copyable h (some a) v r =
        let (b, after, runs, _, extends, reads) =
          Copies-address (read_elements read) (Copyable-elements copyable) h a r in
        record { out = some b; after = after; runs = runs; extends = extends; reads = reads }

  pub Copyable-present :
      {A V : Type 0} ⦃s : Stored f A⦄ (read : Memory f → A → Option V)
      {deep_copy : Pointer → Exec (Memory f) Pointer}
      → Copyable deep_copy (read_pointer read)
      → Copyable (copy_present deep_copy) (read_pointer read)
  unfolding copy_present read_pointer
  Copyable-present read copyable h none v r = Copies-pure h none λ g _. r h λ a l u. refl
  Copyable-present read copyable h (some a) v r =
      let c = copyable h (some a) v r in
      record { out = c.out; after = c.after; runs = c.runs; extends = c.extends; reads = c.reads }

-- How a struct is taken apart: what its copy copies (`part`, `set`), and what it reads as (`value`,
-- `parts`).
pub record Struct (T S V W : Type 0) : Type 0 where
  pub part : T → S
  pub set : T → S → T
  pub value : T → W → V
  pub parts : V → W
  pub part-set : (t : T) (s : S) → part (set t s) ≡ s
  pub value-set : (t : T) (s : S) (w : W) → value (set t s) w ≡ value t w
  pub parts-value : (t : T) (w : W) → parts (value t w) ≡ w

module _ {T S V W : Type 0} (struct : Struct T S V W) where
  found :
      (t : T) (o : Option W) {v : V}
      → Option.map (struct.value t) o ≡ some v
      → (o ≡ some (struct.parts v)) × (struct.value t (struct.parts v) ≡ v)
  found t none e = absurd (Option.none-ne-some _ e)
  found t (some w) {v} e =
      let whole = Option.some-injective _ _ e in
      let parts = sym (struct.parts-value t w) ∙ ap struct.parts whole in
      (ap some parts, sym (ap (struct.value t) parts) ∙ whole)

  module _ {f : Foreign} (copy_part : S → Exec (Memory f) S) where
    set_runs :
        (t : T) (s : S) (h after : Memory f)
        → copy_part (struct.part t) h ≡ (ok s, after)
        → (copy_part (struct.part t) >>= λ s. pure (struct.set t s)) h
          ≡ (ok (struct.set t s), after)
    unfolding ◌>>=◌ pure
    set_runs t s h after e = rw e

  module _ {f : Foreign} (read_part : Memory f → S → Option W) where
    set_reads :
        (t : T) (s : S) (g : Memory f) {w : W}
        → read_part g s ≡ some w
        → Option.map (struct.value (struct.set t s)) (read_part g (struct.part (struct.set t s)))
          ≡ some (struct.value t w)
    set_reads t s g {w} e = rw (struct.part-set t s, e, struct.value-set t s w)

  module _ {f : Foreign} {copy : T → Exec (Memory f) T} {copy_part : S → Exec (Memory f) S}
      {read : Memory f → T → Option V} {read_part : Memory f → S → Option W} where
    pub Copyable-struct :
        ((t : T) (h : Memory f)
          → copy t h ≡ (copy_part (struct.part t) >>= λ s. pure (struct.set t s)) h)
        → ((t : T) (h : Memory f)
            → read h t ≡ Option.map (struct.value t) (read_part h (struct.part t)))
        → Copyable copy_part read_part
        → Copyable copy read
    Copyable-struct copies reads copyable h t v r =
        let whole =
          (found t (read_part h (struct.part t)) (sym (reads t h) ∙ r h λ a l u. refl)).1 in
        let c =
          copyable h (struct.part t) (struct.parts v)
            λ g same. (found t (read_part g (struct.part t)) (sym (reads t g) ∙ r g same)).0 in
        record {
          out = struct.set t c.out;
          after = c.after;
          runs = copies t h ∙ set_runs copy_part t c.out h c.after c.runs;
          extends = c.extends;
          reads = λ g same.
              reads (struct.set t c.out) g
              ∙ set_reads read_part t c.out g (c.reads g same)
              ∙ ap some whole;
        }
