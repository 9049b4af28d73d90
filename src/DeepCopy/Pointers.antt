-- ===== src/DeepCopy/Pointers.antt =====
-- The copy of a value without pointers, and of what one pointer leads to.
use mathlib.Core.Option
use kind_music_streaming.Prelude.{
  ◌+◌, ◌≤◌, ◌<◌, ◌≡◌, refl, sym, ◌∙◌, inl, inr, Option, none, some, arith, ◌==◌, if◌then◌else◌, ltb,
  Bool-cases, false,
}
use kind_music_streaming.Exec.{ok, Exec, pure, ◌>>=◌}
use kind_music_streaming.DeepCopy.Structs.{Address, Foreign}
use kind_music_streaming.DeepCopy.Memory.{Memory, Stored, look, put, load, store, new}
use kind_music_streaming.DeepCopy.Generated.{copy_pointer}
use kind_music_streaming.DeepCopy.Reading.{plain, read_at}
use kind_music_streaming.DeepCopy.Copyable.{Agree, Extends, Reads, Copies, Copyable}

module _ {f : Foreign} where
  Extends-refl : (h : Memory f) → Extends h h
  Extends-refl h = record { grows = omega arith; keeps = λ a l u. refl }

  pub Copies-pure :
      {A V : Type 0} (h : Memory f) {read : Memory f → A → Option V} (value : A) {v : V}
      → Reads h.next h.next h (λ g. read g value) v
      → Copies (pure value) read h v
  unfolding pure
  Copies-pure h value r = record {
    out = value;
    after = h;
    runs = refl;
    extends = Extends-refl h;
    reads = r;
  }

  pub Copyable-plain : {A : Type 0} → Copyable {f = f} {A = A} pure plain
  Copyable-plain h value v r = Copies-pure h value λ g _. r h λ a l u. refl

  -- The memory without the cell at `a`.
  without : Memory f → Address → Memory f
  without h a = record h { cell = λ b. if b == a then none else h.cell b }

  Agree-without :
      (h : Memory f) (a : Address) → ltb a h.next ≡ false → Agree 0 h.next (without h a) h
  unfolding without
  Agree-without h a beyond b l u = ground arith

  abbrev after_new : Memory f → Memory f
  after_new h = record h { next = h.next + 1 }

  module _ {A V : Type 0} ⦃s : Stored f A⦄ (read : Memory f → A → Option V) where
    read_at-without : (h : Memory f) (a : Address) → read_at read (without h a) a ≡ none
    unfolding read_at look without Option.bind
    read_at-without h a = ground arith

    -- What can be read in allocated memory is at an allocated address.
    allocated :
        (h : Memory f) (a : Address) {v : V}
        → Reads 0 h.next h (λ g. read_at read g a) v
        → a < h.next
    allocated h a r = elim (Bool-cases (ltb a h.next)) [
      | inl below ↦ ground arith
      | inr beyond ↦ absurd (
          Option.some-ne-none _
            (sym (r (without h a) (Agree-without h a beyond)) ∙ read_at-without h a))
    ]

    read_at-look :
        (h : Memory f) (a : Address) {x : A} → look h a ≡ some x → read_at read h a ≡ read h x
    unfolding read_at Option.bind
    read_at-look h a e = rw e

    look-cell : (g h : Memory f) (a : Address) → g.cell a ≡ h.cell a → look ⦃s = s⦄ g a ≡ look h a
    unfolding look
    look-cell g h a e = rw (look, e)

    look-put : (h : Memory f) (a : Address) (x : A) → look (put h a x) a ≡ some x
    unfolding look put
    look-put h a x = ground (arith, s.unwrap-wrap x)

    -- Its cell holds a value, and that value reads the same.
    pointee :
        (h : Memory f) (a : Address) {v : V}
        → Reads 0 h.next h (λ g. read_at read g a) v
        → (x : A) × (look h a ≡ some x) × Reads 0 h.next h (λ g. read g x) v
    unfolding read_at
    pointee h a r =
        let (x, found, _) = (Option.bind-eq-some_iff (look h a) (read h)).0 (r h λ a l u. refl) in
        (
          x,
          found,
          λ g same.
              sym (
                read_at-look g a (look-cell g h a (same a (omega arith) (allocated h a r)) ∙ found))
              ∙ r g same,
        )

    module _ (h : Memory f) (x y : A) (after : Memory f) where
      copy_pointer-runs :
          (copy_into : A → Exec (Memory f) A) (a : Address)
          → look h a ≡ some x
          → copy_into x (after_new h) ≡ (ok y, after)
          → copy_pointer copy_into (some a) h ≡ (ok (some h.next), put after h.next y)
      unfolding copy_pointer ◌>>=◌ pure load store new look
      copy_pointer-runs copy_into a found runs = ground (arith, found, runs)

      Extends-put : Extends (after_new h) after → Extends h (put after h.next y)
      unfolding put
      Extends-put e = record {
        grows = omega (arith, e.grows);
        keeps = λ b l u. ground (arith, e.keeps b l (omega (arith, u)));
      }

      Reads-put :
          {v : V}
          → Extends (after_new h) after
          → Reads (h.next + 1) after.next after (λ g. read g y) v
          → Reads h.next after.next (put after h.next y) (λ g. read_at read g h.next) v
      unfolding put
      Reads-put e r g same =
          read_at-look g h.next (
            look-cell g (put after h.next y) h.next
              (same h.next (omega arith) (omega (arith, e.grows)))
            ∙ look-put after h.next y)
          ∙ r g λ b l u. same b (omega (arith, l)) u ∙ ground (arith, l)

    -- new, the copy of what `a` holds, and the write of the copy
    pub Copies-address :
        {copy_into : A → Exec (Memory f) A}
        → Copyable copy_into read
        → (h : Memory f) (a : Address) {v : V} → Reads 0 h.next h (λ g. read_at read g a) v
        → (b : Address) × (after : Memory f) × (copy_pointer copy_into (some a) h
            ≡ (ok (some b), after))
          × (h.next ≤ b)
          × Extends h after
          × Reads h.next after.next after (λ g. read_at read g b) v
    unfolding put
    Copies-address {copy_into} copyable h a r =
        let (x, found, inner) = pointee h a r in
        let c =
          copyable (after_new h) x _ (λ g same. inner g λ b l u. same b l (omega (arith, u))) in
        (
          h.next,
          put c.after h.next c.out,
          copy_pointer-runs h x c.out c.after copy_into a found c.runs,
          omega arith,
          Extends-put h x c.out c.after c.extends,
          Reads-put h x c.out c.after c.extends c.reads,
        )
