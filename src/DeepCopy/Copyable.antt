-- ===== src/DeepCopy/Copyable.antt =====
-- What it means for a copy to succeed: the code returns, nothing that was there before is written,
-- and the copy reads as the original does, through addresses that were free before.
use kind_music_streaming.Prelude.{◌≤◌, ◌<◌, ◌≡◌, ◌∙◌, Option, some, arith}
use kind_music_streaming.Exec.{ok, Exec}
use kind_music_streaming.DeepCopy.Structs.{Address, Foreign}
use kind_music_streaming.DeepCopy.Memory.{Memory}

module _ {f : Foreign} where
  -- `g` has the cells of `h` at the addresses from `low` up to `high`, `high` left out.
  abbrev pub Agree : Address → Address → Memory f → Memory f → Type 0
  Agree low high g h = (a : Address) → low ≤ a → a < high → g.cell a ≡ h.cell a

  -- `g` differs from `h` at most at addresses that are free in `h`.
  pub record Extends (h g : Memory f) : Type 0 where
    pub grows : h.next ≤ g.next
    pub keeps : Agree 0 h.next g h

  -- Whatever the other addresses hold, `read` is `v`, by the cells of `h` from `low` up to `high`.
  abbrev pub Reads :
      {V : Type 0} → Address → Address → Memory f → (Memory f → Option V) → V → Type 0
  Reads low high h read v = (g : Memory f) → Agree low high g h → read g ≡ some v

  module _ {A V : Type 0} where
    pub record Copies (code : Exec (Memory f) A) (read : Memory f → A → Option V) (h : Memory f)
        (v : V) : Type 0 where
      pub out : A
      pub after : Memory f
      pub runs : code h ≡ (ok out, after)
      pub extends : Extends h after
      pub reads : Reads h.next after.next after (λ g. read g out) v

    -- `copy` copies whatever `read` can read in allocated memory.
    abbrev pub Copyable : (A → Exec (Memory f) A) → (Memory f → A → Option V) → Type 0
    Copyable copy read =
        (h : Memory f) (value : A) (v : V)
        → Reads 0 h.next h (λ g. read g value) v
        → Copies (copy value) read h v

  pub Extends-trans : {h g k : Memory f} → Extends h g → Extends g k → Extends h k
  Extends-trans {h} {g} {k} x y = record {
    grows = omega (arith, x.grows, y.grows);
    keeps = λ a l u. y.keeps a l (omega (arith, x.grows, u)) ∙ x.keeps a l u;
  }

  module _ {V : Type 0} {read : Memory f → Option V} {v : V} where
    -- What could be read before can be read after.
    pub Reads-Extends :
        {low : Address} {h g : Memory f}
        → Extends h g
        → Reads low h.next h read v
        → Reads low g.next g read v
    Reads-Extends x r k same =
        r k λ a l u. same a l (omega (arith, x.grows, u)) ∙ x.keeps a (omega arith) u

    pub Reads-lower :
        {low from : Address} {h : Memory f}
        → from ≤ low
        → Reads low h.next h read v
        → Reads from h.next h read v
    Reads-lower b r k same = r k λ a l u. same a (omega (arith, b, l)) u
