-- ===== src/Reconciler/Quiet.antt =====
-- Runs that read objects and do nothing else.
use kind_music_streaming.Prelude.{◌≡◌, ◌∙◌, refl, ap, arith, true, Option, none, some}
use kind_music_streaming.Kube.{NamespacedName}
use kind_music_streaming.Exec.{Error, Outcome, ok, err, Exec, pure, lift, ◌>>=◌, handle}
use kind_music_streaming.Platform.{Kind, Obj, Client}
use kind_music_streaming.Platform.Lawful.{Lawful}

-- What a server holds at each kind and key.
abbrev pub View : Type 0
View = (k : Kind) → NamespacedName → Option (Obj k)

module _ (c : Client) where
  -- From one state of the world to another by calls of Get.
  pub data OnlyReads (w : c.World) : c.World → Type 0 where
    unread : OnlyReads w w
    then_get :
        {w' : c.World} (k : Kind) (key : NamespacedName)
        → OnlyReads w w'
        → OnlyReads w (c.get k key w').1

  module _ (law : Lawful c) where
    -- The server answers a read with what it holds, and with "not found" where it holds nothing.
    pub record Answers : Type 0 where
      pub finds :
          (k : Kind) (key : NamespacedName) (w : c.World) (o : Obj k)
          → law.view w k key ≡ some o
          → (c.get k key w).0 ≡ ok o
      pub misses :
          (k : Kind) (key : NamespacedName) (w : c.World)
          → law.view w k key ≡ none
          → (e : Error) × ((c.get k key w).0 ≡ err e) × (e.is_not_found ≡ true)

    -- Where the server holds `V`, the code returns `a` and has only read.
    pub record Quiet (V : View) {A : Type 0} (code : Exec c.World A) (a : A) : Type 0 where
      pub runs :
          (w : c.World) → law.view w ≡ V → (w' : c.World) × (code w ≡ (ok a, w')) × OnlyReads w w'

    pub OnlyReads-trans : {w w₁ w₂ : c.World} → OnlyReads w w₁ → OnlyReads w₁ w₂ → OnlyReads w w₂
    OnlyReads-trans first unread = first
    OnlyReads-trans first (then_get k key more) = then_get k key (OnlyReads-trans first more)

    pub OnlyReads-view : {w w' : c.World} → OnlyReads w w' → law.view w' ≡ law.view w
    OnlyReads-view unread = refl
    OnlyReads-view (then_get {w'} k key before) = law.get_same k key w' ∙ OnlyReads-view before

    module _ {V : View} {A : Type 0} where
      pub Quiet-pure : (a : A) → Quiet V (pure a) a
      unfolding pure
      Quiet-pure a = record { runs = λ w held. (w, refl, unread) }

      pub Quiet-lift : (r : Outcome A) (a : A) → r ≡ ok a → Quiet V (lift r) a
      unfolding lift
      Quiet-lift r a e = record { runs = λ w held. (w, ap (λ o. (o, w)) e, unread) }

    bind_runs :
        {A B : Type 0} (code : Exec c.World A) (next : A → Exec c.World B) (a : A) (b : B)
        (w w₁ w₂ : c.World)
        → code w ≡ (ok a, w₁)
        → next a w₁ ≡ (ok b, w₂)
        → (code >>= next) w ≡ (ok b, w₂)
    unfolding ◌>>=◌
    bind_runs code next a b w w₁ w₂ first second = ground arith

    pub Quiet-bind :
        {V : View} {A B : Type 0} {code : Exec c.World A} (next : A → Exec c.World B) (a : A)
        {b : B}
        → Quiet V code a
        → Quiet V (next a) b
        → Quiet V (code >>= next) b
    Quiet-bind {code = code} next a {b} first second = record {
      runs = λ w held.
          let (w₁, ran, read) = first.runs w held in
          let (w₂, later, more) = second.runs w₁ (OnlyReads-view read ∙ held) in
          (w₂, bind_runs code next a b w w₁ w₂ ran later, OnlyReads-trans read more);
    }

    module _ (answers : Answers) (k : Kind) (key : NamespacedName) {A : Type 0}
        (bad : Error → Exec c.World A) (good : Obj k → Exec c.World A) {a : A} where
      found_runs :
          (o : Obj k) (w w' : c.World)
          → (c.get k key w).0 ≡ ok o
          → good o (c.get k key w).1 ≡ (ok a, w')
          → handle (c.get k key) bad good w ≡ (ok a, w')
      unfolding handle
      found_runs o w w' found later = rw found later

      missed_runs :
          (e : Error) (w w' : c.World)
          → (c.get k key w).0 ≡ err e
          → bad e (c.get k key w).1 ≡ (ok a, w')
          → handle (c.get k key) bad good w ≡ (ok a, w')
      unfolding handle
      missed_runs e w w' missed later = rw missed later

      pub Quiet-found :
          {V : View} (o : Obj k)
          → V k key ≡ some o
          → Quiet V (good o) a
          → Quiet V (handle (c.get k key) bad good) a
      Quiet-found o there next = record {
        runs = λ w held.
            let found = answers.finds k key w o (ap (λ view. view k key) held ∙ there) in
            let (w', later, read) = next.runs (c.get k key w).1 (law.get_same k key w ∙ held) in
            (w', found_runs o w w' found later, OnlyReads-trans (then_get k key unread) read);
      }

      pub Quiet-missing :
          {V : View}
          → V k key ≡ none
          → ((e : Error) → e.is_not_found ≡ true → Quiet V (bad e) a)
          → Quiet V (handle (c.get k key) bad good) a
      Quiet-missing gone next = record {
        runs = λ w held.
            let (e, missed, not_found) =
              answers.misses k key w (ap (λ view. view k key) held ∙ gone) in
            let (w', later, read) =
              (next e not_found).runs (c.get k key w).1 (law.get_same k key w ∙ held) in
            (w', missed_runs e w w' missed later, OnlyReads-trans (then_get k key unread) read);
      }
