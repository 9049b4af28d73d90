-- ===== src/DeepCopy/Pairs.antt =====
-- Two copies, one after the other.
use mathlib.Core.Option
use mathlib.Core.Path.{fun_ext}
use kind_music_streaming.Prelude.{◌≡◌, ap, ◌∙◌, Option, none, some, arith}
use kind_music_streaming.Exec.{ok, Exec, pure, ◌>>=◌}
use kind_music_streaming.DeepCopy.Structs.{Foreign}
use kind_music_streaming.DeepCopy.Memory.{Memory}
use kind_music_streaming.DeepCopy.Reading.{read_both}
use kind_music_streaming.DeepCopy.Copyable.{
  Extends, Reads, Copies, Copyable, Extends-trans, Reads-Extends, Reads-lower,
}

module _ {f : Foreign} {A B : Type 0} where
  -- One after the other.
  unfoldable pub copy_both :
      (A → Exec (Memory f) A) → (B → Exec (Memory f) B) → A × B → Exec (Memory f) (A × B)
  unfolding ◌>>=◌ pure
  copy_both copy_first copy_second (a, b) = do x ← copy_first a; y ← copy_second b; pure (x, y)

bind_parts :
    {V W : Type 0} {v : V} {w : W} (o : Option V) (p : Option W)
    → Option.bind {B = V × W} o (λ x. Option.map (λ y. (x, y)) p) ≡ some (v, w)
    → (o ≡ some v) × (p ≡ some w)
unfolding Option.bind
bind_parts none p e = absurd (Option.none-ne-some _ e)
bind_parts (some x) none e = absurd (Option.none-ne-some _ e)
bind_parts (some x) (some y) e =
    let pairs = Option.some-injective _ _ e in (ap (λ c. some c.0) pairs, ap (λ c. some c.1) pairs)

module _ {f : Foreign} {A B V W : Type 0} where
  -- The parts of a copy of two values; the second one starts where the first one ended.
  pub record CopiesBoth (copy_first : A → Exec (Memory f) A) (copy_second : B → Exec (Memory f) B)
      (read_first : Memory f → A → Option V) (read_second : Memory f → B → Option W) (h : Memory f)
      (a : A) (b : B) (v : V) (w : W) : Type 0 where
    pub first : A
    pub second : B
    pub between : Memory f
    pub after : Memory f
    pub runs_first : copy_first a h ≡ (ok first, between)
    pub runs_second : copy_second b between ≡ (ok second, after)
    pub extends : Extends h after
    pub reads_first : Reads h.next after.next after (λ g. read_first g first) v
    pub reads_second : Reads h.next after.next after (λ g. read_second g second) w

  module _ {copy_first : A → Exec (Memory f) A} {copy_second : B → Exec (Memory f) B}
      {read_first : Memory f → A → Option V} {read_second : Memory f → B → Option W}
      (first : Copyable copy_first read_first) where
    pub CopiesBoth-Copyable :
        {a : A} {b : B} {v : V} {w : W}
        → ((g : Memory f)
            → Reads 0 g.next g (λ k. read_second k b) w
            → Copies (copy_second b) read_second g w)
        → (h : Memory f) → Reads 0 h.next h (λ g. read_first g a) v
        → Reads 0 h.next h (λ g. read_second g b) w
        → CopiesBoth copy_first copy_second read_first read_second h a b v w
    CopiesBoth-Copyable second h r t =
        let x = first h _ _ r in
        let y = second x.after (Reads-Extends x.extends t) in
        record {
          first = x.out;
          second = y.out;
          between = x.after;
          after = y.after;
          runs_first = x.runs;
          runs_second = y.runs;
          extends = Extends-trans x.extends y.extends;
          reads_first = Reads-Extends y.extends x.reads;
          reads_second = Reads-lower x.extends.grows y.reads;
        }

    pub Copyable-both :
        Copyable copy_second read_second
        → Copyable (copy_both copy_first copy_second) (read_both read_first read_second)
    unfolding copy_both read_both ◌>>=◌ pure
    Copyable-both second h (a, b) (v, w) r =
        let c =
          CopiesBoth-Copyable (λ k. second k b w) h (λ g same. (parts g (r g same)).0)
            (λ g same. (parts g (r g same)).1) in
        record {
          out = (c.first, c.second);
          after = c.after;
          runs = rw (c.runs_first, c.runs_second);
          extends = c.extends;
          reads = λ g same. rw (c.reads_first g same, c.reads_second g same);
        }
      where
        parts :
            (g : Memory f)
            → read_both read_first read_second g (a, b) ≡ some (v, w)
            → (read_first g a ≡ some v) × (read_second g b ≡ some w)
        parts g e = bind_parts (read_first g a) (read_second g b) e

module _ {f : Foreign} {A B T : Type 0} where
  pub copy_both_then :
      (first : A → Exec (Memory f) A) (second : B → Exec (Memory f) B)
      (next : A × B → Exec (Memory f) T) (a : A) (b : B)
      → (first a >>= λ x. second b >>= λ y. next (x, y)) ≡ (copy_both first second (a, b) >>= next)
  unfolding copy_both ◌>>=◌ pure
  copy_both_then first second next a b = fun_ext λ h. ground arith

module _ {f : Foreign} {A B C T : Type 0} where
  pub copy_three_then :
      (first : A → Exec (Memory f) A) (second : B → Exec (Memory f) B)
      (third : C → Exec (Memory f) C) (next : A × (B × C) → Exec (Memory f) T) (a : A) (b : B)
      (c : C)
      → (first a >>= λ x. second b >>= λ y. third c >>= λ z. next (x, (y, z)))
        ≡ (copy_both first (copy_both second third) (a, (b, c)) >>= next)
  copy_three_then first second third next a b c =
      ap (λ k. first a >>= k) (fun_ext λ x. copy_both_then second third (λ yz. next (x, yz)) b c)
      ∙ copy_both_then first (copy_both second third) next a (b, c)

module _ {f : Foreign} {A B C D T : Type 0} where
  pub copy_four_then :
      (first : A → Exec (Memory f) A) (second : B → Exec (Memory f) B)
      (third : C → Exec (Memory f) C) (fourth : D → Exec (Memory f) D)
      (next : A × (B × (C × D)) → Exec (Memory f) T) (a : A) (b : B) (c : C) (d : D)
      → (first a >>= λ x.
          second b >>= λ y. third c >>= λ z. fourth d >>= λ w. next (x, (y, (z, w))))
        ≡ (copy_both first (copy_both second (copy_both third fourth)) (a, (b, (c, d))) >>= next)
  copy_four_then first second third fourth next a b c d =
      ap (λ k. first a >>= k)
        (fun_ext λ x. copy_three_then second third fourth (λ rest. next (x, rest)) b c d)
      ∙ copy_both_then first (copy_both second (copy_both third fourth)) next a (b, (c, d))
