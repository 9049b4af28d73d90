-- ===== src/Tests/Steady.antt =====
-- The server in memory, with the defaults and the validation of an API server, is steady.
use kind_music_streaming.Prelude.{◌≡◌, refl, Option, none, some, arith, inl}
use kind_music_streaming.Prelude.Int.{ℤ, pos}
use kind_music_streaming.Kube.{NamespacedName}
use kind_music_streaming.Exec.{Error, Outcome, Exec, pure, ◌>>=◌}
use kind_music_streaming.Exec.Ensures.{
  Ends, value, fails, Ensures, Safe, Ensures-pure, Ensures-bind,
}
use kind_music_streaming.Platform.{
  Kind, stateful_set, service, autoscaler, secret, claim, music_service, Obj, Client,
}
use kind_music_streaming.Platform.Lawful.{key_of}
use kind_music_streaming.Builder.{IsQuantity, IsBuildable}
use kind_music_streaming.Reconciler.Total.{NotRead, Sound, Steady}
use kind_music_streaming.Controller.{reconcile}
use kind_music_streaming.Controller.Total.{IsDelay, reconcile-ends}
use kind_music_streaming.Tests.Memory.{
  find, objects, not_found, already_exists, Cluster, get, create, update, delete, list_claims,
  memory,
}
use kind_music_streaming.Tests.Examples.{library, radio, plain, database, storage, gibibytes_10}
use kind_music_streaming.Tests.Validation.{read_spec}

abbrev defaulted : Option ℤ → ℤ
defaulted none = pos 1
defaulted (some n) = n

unfoldable pub admit : (k : Kind) → Obj k → Obj k
admit stateful_set o = record o {
  spec = record (o.spec) { replicas = some (defaulted o.spec.replicas) };
}
admit music_service o = elim (read_spec o) [
  | none ↦ record plain { metadata = o.metadata }
  | some _ ↦ o
]
admit _ o = o

unfoldable pub admitted : (k : Kind) → Exec Cluster (Obj k) → Exec Cluster (Obj k)
unfolding admit pure ◌>>=◌
admitted k m = m >>= λ o. pure (admit k o)

abbrev api_server : Client
api_server = record memory {
  get = λ k key. admitted k (get k key);
  update = λ k o. admitted k (update k o);
}

admit-Sound : (k : Kind) (o : Obj k) → Sound library k (admit k o)
unfolding admit
admit-Sound stateful_set o = (defaulted o.spec.replicas, refl)
admit-Sound music_service o = by_spec (read_spec o)
  where
    by_spec :
        (r : Option (IsBuildable library o.spec))
        → Sound library music_service
            (elim r [ none ↦ record plain { metadata = o.metadata } | some _ ↦ o ])
    by_spec none = record {
      size = (_, refl);
      default = (_, refl);
      database = λ db e. absurd (ground arith);
    }
    by_spec (some b) = b
admit-Sound service o = tt
admit-Sound autoscaler o = tt
admit-Sound secret o = tt
admit-Sound claim o = tt

-- Any error.
abbrev AnyError : Error → Type 0
AnyError e = Unit

by_presence :
    {A B : Type 0} {E : Error → Type 0} (o : Option B) (absent : Outcome A × Cluster)
    (present : B → Outcome A × Cluster)
    → Ends E (λ _. Unit {0}) absent.0
    → ((b : B) → Ends E (λ _. Unit {0}) (present b).0)
    → Ends E
        (λ _. Unit {0})
        (elim o as (λ _. Outcome A × Cluster) [ none ↦ absent | some b ↦ present b ]).0
by_presence none absent present h k = h
by_presence (some b) absent present h k = k b

get-Safe : (E : Error → Type 0) (k : Kind) (key : NamespacedName) → Safe (NotRead E) (get k key)
unfolding get
get-Safe E k key = record {
  from =
      λ w. by_presence (find k key (objects k w)) _ _ (fails not_found (inl refl)) (λ o. value tt);
}

update-Safe : (k : Kind) (o : Obj k) → Safe AnyError (update k o)
unfolding update
update-Safe k o = record {
  from =
      λ w. by_presence (find k (key_of k o) (objects k w)) _ _ (fails not_found tt) (λ _. value tt);
}

create-Safe : (k : Kind) (o : Obj k) → Safe AnyError (create k o)
unfolding create
create-Safe k o = record {
  from = λ w.
      by_presence (find k (key_of k o) (objects k w)) _ _ (value tt) (λ _. fails already_exists tt);
}

delete-Safe : (k : Kind) (o : Obj k) → Safe AnyError (delete k o)
unfolding delete
delete-Safe k o = record {
  from =
      λ w. by_presence (find k (key_of k o) (objects k w)) _ _ (fails not_found tt) (λ _. value tt);
}

admitted-Sound :
    (E : Error → Type 0) (k : Kind) (m : Exec Cluster (Obj k))
    → Safe E m
    → Ensures E (Sound library k) (admitted k m)
unfolding admitted
admitted-Sound E k m safe =
    Ensures-bind m _ safe (λ o _. Ensures-pure (admit k o) (admit-Sound k o))

api_server-Steady : Steady AnyError library api_server
unfolding list_claims
api_server-Steady = record {
  gets = λ k key. admitted-Sound (NotRead AnyError) k (get k key) (get-Safe AnyError k key);
  creates = create-Safe;
  updates = λ k o. admitted-Sound AnyError k (update k o) (update-Safe k o);
  deletes = delete-Safe;
  lists = λ namespace. record { from = λ w. value tt };
  statuses = λ ms. update-Safe music_service ms;
  events = λ ms type reason message. record { from = λ w. value tt };
  clock = record { from = λ w. value tt };
  random = λ n. record { from = λ w. value tt };
}

-- "radio", whose database has two replicas.
pub radio-IsBuildable : IsBuildable library radio.spec
radio-IsBuildable = record {
  size = (_, refl);
  default = (_, refl);
  database = λ db e.
      let found : database ≡ db = ground arith in
      rw (← found) (record {
        storage = λ s e.
            let same : storage ≡ s = ground arith in
            let quantity : IsQuantity library storage.size = (gibibytes_10, refl) in
            rw (← same) quantity;
        count = 2;
        replicas = refl;
        few = omega arith;
      });
}

reconcile-ends_example :
    Ensures AnyError IsDelay
      (reconcile library api_server (record { name = "radio"; namespace = "music" }))
reconcile-ends_example =
    reconcile-ends AnyError library api_server api_server-Steady
      (record { name = "radio"; namespace = "music" })
