-- ===== src/Reconciler/Storage/Growth.antt =====
-- `resizePVCs` on a lawful server: the size of the claims afterwards.
use kind_music_streaming.Prelude.{
  String, string_discrete, ◌≡◌, ◌≢◌, ◌∙◌, refl, sym, ◌⊎◌, inl, inr, true, Option, none, some, List,
  [], ◌∷◌, In, lookup, insert, lookup-insert, arith, Bool-cases,
}
use kind_music_streaming.Prelude.Int.{◌≤ℤ◌, ltb_ℤ}
use kind_music_streaming.Kube.{Quantity, NamespacedName, PersistentVolumeClaim, StatefulSet}
use kind_music_streaming.Exec.{ok, pure}
use kind_music_streaming.Exec.Inversion.{bind_ok, pure_ok}
use kind_music_streaming.Platform.{claim, Client}
use kind_music_streaming.Platform.Lawful.{Lawful, key_of}
use kind_music_streaming.Reconciler.Storage.{
  has_prefix, claim_prefix, resize_from, resize_pvc, resize_each, resize_to, resize_pvcs,
  list_pvcs_by_prefix, storage_request_from_stateful_set,
}
use kind_music_streaming.Reconciler.Storage.Prefix.{list_pvcs_by_prefix_lem}

key_cases : (a b : NamespacedName) → (a ≡ b) ⊎ (a ≢ b)
key_cases a b = elim (key_discrete a b) [ yes e ↦ inl e | no other ↦ inr other ]
  where
    key_discrete : Discrete NamespacedName
    key_discrete = hlevel (string_discrete)

module _ (c : Client) (law : Lawful c) (size : Quantity) where
  -- The server holds a claim under the key that requests at least the size.
  pub record Grown (w : c.World) (key : NamespacedName) : Type 0 where
    pub pvc : PersistentVolumeClaim
    pub present : law.view w claim key ≡ some pvc
    pub request : Quantity
    pub requested : lookup "storage" pvc.requests ≡ some request
    pub large : size.thousandths ≤ℤ request.thousandths

  -- A listed claim is as it was listed, or has been enlarged.
  abbrev Listed : c.World → PersistentVolumeClaim → Type 0
  Listed w pvc = (law.view w claim (key_of claim pvc) ≡ some pvc) ⊎ Grown w (key_of claim pvc)

  resized : PersistentVolumeClaim → PersistentVolumeClaim
  resized pvc = record pvc { requests = insert "storage" size pvc.requests }

  update-Grown :
      (pvc new : PersistentVolumeClaim) (w w' : c.World)
      → c.update claim (resized pvc) w ≡ (ok new, w')
      → Grown w' (key_of claim pvc)
  unfolding resized
  update-Grown pvc new w w' run = record {
    pvc = law.stored w' claim (resized pvc);
    present = law.update_stores claim (resized pvc) new w w' run;
    request = size;
    requested =
        rw law.stored_requests
          (ground (arith, lookup-insert "storage" "storage" size pvc.requests));
    large = omega arith;
  }

  -- The claim is enlarged, or it is passed over and large enough, or without a request.
  resize_from-cases :
      (pvc : PersistentVolumeClaim) (o : Option Quantity) (w w' : c.World)
      → resize_from c size pvc o w ≡ (ok tt, w')
      → ((new : PersistentVolumeClaim) × (c.update claim (resized pvc) w ≡ (ok new, w')))
        ⊎ ((w ≡ w') × ((old : Quantity) → o ≡ some old → size.thousandths ≤ℤ old.thousandths))
  unfolding resize_from resized
  resize_from-cases pvc none w w' run =
      let (_, same) = pure_ok tt tt w w' run in inr (same, λ old e. absurd (ground arith))
  resize_from-cases pvc (some q) w w' run =
      elim (Bool-cases (ltb_ℤ q.thousandths size.thousandths)) [
        | inl less ↦
            let (new, w₁, done, rest) =
              bind_ok (c.update claim (resized pvc)) (λ _. pure tt) tt w w' (rw less at run) in
            let (_, same) = pure_ok tt tt w₁ w' rest in inl (new, rw same at done)
        | inr enough ↦
            let (_, same) = pure_ok tt tt w w' (rw enough at run) in
            inr (same, λ old e. let found : q ≡ old = ground arith in rw (← found) (ground arith))
      ]

  -- Under each key there is a claim that is large enough, or what was there.
  abbrev Stays : c.World → c.World → NamespacedName → Type 0
  Stays w w' key = Grown w' key ⊎ (law.view w' claim key ≡ law.view w claim key)

  Grown-Stays :
      (w w' : c.World) (key : NamespacedName) → Grown w key → Stays w w' key → Grown w' key
  Grown-Stays w w' key grown (inl now) = now
  Grown-Stays w w' key grown (inr same) = record {
    pvc = grown.pvc;
    present = same ∙ grown.present;
    request = grown.request;
    requested = grown.requested;
    large = grown.large;
  }

  Listed-Stays :
      (w w' : c.World) (pvc : PersistentVolumeClaim)
      → Listed w pvc
      → Stays w w' (key_of claim pvc)
      → Listed w' pvc
  Listed-Stays w w' pvc (inr grown) stays = inr (Grown-Stays w w' _ grown stays)
  Listed-Stays w w' pvc (inl seen) (inl now) = inr now
  Listed-Stays w w' pvc (inl seen) (inr same) = inl (same ∙ seen)

  resize_pvc-Stays :
      (x : PersistentVolumeClaim) (key : NamespacedName) (w w' : c.World)
      → resize_pvc c size x w ≡ (ok tt, w')
      → Stays w w' key
  unfolding resize_pvc resized
  resize_pvc-Stays x key w w' run =
      elim (resize_from-cases x (lookup "storage" x.requests) w w' run) [
        | inr (same, _) ↦ inr (rw same refl)
        | inl (new, done) ↦ elim (key_cases key (key_of claim x)) [
          | inl is ↦ inl (rw is (update-Grown x new w w' done))
          | inr other ↦ inr (rw done at (law.update_frame claim (resized x) w key other))
        ]
      ]

  resize_pvc-Grown :
      (x : PersistentVolumeClaim) (old : Quantity) (w w' : c.World)
      → lookup "storage" x.requests ≡ some old
      → resize_pvc c size x w ≡ (ok tt, w')
      → Listed w x
      → Grown w' (key_of claim x)
  unfolding resize_pvc
  resize_pvc-Grown x old w w' asked run listed =
      elim (resize_from-cases x (lookup "storage" x.requests) w w' run) [
        | inl (new, done) ↦ update-Grown x new w w' done
        | inr (same, enough) ↦ rw (← same) (large listed (enough old asked))
      ]
    where
      large : Listed w x → size.thousandths ≤ℤ old.thousandths → Grown w (key_of claim x)
      large (inr grown) enough = grown
      large (inl seen) enough = record {
        pvc = x;
        present = seen;
        request = old;
        requested = asked;
        large = enough;
      }

  resize_each-Grown_stays :
      (pvcs : List PersistentVolumeClaim) (key : NamespacedName) (w w' : c.World)
      → resize_each c size pvcs w ≡ (ok tt, w')
      → Grown w key
      → Grown w' key
  unfolding resize_each
  resize_each-Grown_stays [] key w w' run grown =
      let (_, same) = pure_ok tt tt w w' run in rw (← same) grown
  resize_each-Grown_stays (x ∷ pvcs) key w w' run grown =
      let (_, w₁, done, rest) =
        bind_ok (resize_pvc c size x) (λ _. resize_each c size pvcs) tt w w' run in
      resize_each-Grown_stays pvcs key w₁ w' rest
        (Grown-Stays w w₁ key grown (resize_pvc-Stays x key w w₁ done))

  resize_each-Grown :
      (pvcs : List PersistentVolumeClaim) (pvc : PersistentVolumeClaim) (old : Quantity)
      (w w' : c.World)
      → In pvc pvcs
      → lookup "storage" pvc.requests ≡ some old
      → Listed w pvc
      → resize_each c size pvcs w ≡ (ok tt, w')
      → Grown w' (key_of claim pvc)
  unfolding resize_each
  resize_each-Grown [] pvc old w w' m asked listed run = absurd m
  resize_each-Grown (x ∷ pvcs) pvc old w w' m asked listed run =
      let (_, w₁, done, rest) =
        bind_ok (resize_pvc c size x) (λ _. resize_each c size pvcs) tt w w' run in
      let key = key_of claim pvc in
      elim m [
        | inl is ↦
            resize_each-Grown_stays pvcs key w₁ w' rest
              (resize_pvc-Grown pvc old w w₁ asked (rw (← is) at done) listed)
        | inr later ↦
            resize_each-Grown pvcs pvc old w₁ w' later asked
              (Listed-Stays w w₁ pvc listed (resize_pvc-Stays x key w w₁ done)) rest
      ]

-- On a lawful server that lists the claims of the namespace as it holds them: after a successful run
-- each listed claim whose name begins with the prefix, and which has a requested size, requests at
-- least the size that the StatefulSet desires.
pub resize_pvcs-Grown :
    (c : Client) (law : Lawful c) (claim_name app_name : String) (desired : StatefulSet)
    (size old : Quantity) (items : List PersistentVolumeClaim) (pvc : PersistentVolumeClaim)
    (w w₁ w' : c.World)
    → storage_request_from_stateful_set desired ≡ some size
    → c.list desired.metadata.namespace w ≡ (ok items, w₁)
    → law.view w claim (key_of claim pvc) ≡ some pvc
    → In pvc items
    → has_prefix (claim_prefix claim_name app_name) pvc ≡ true
    → lookup "storage" pvc.requests ≡ some old
    → resize_pvcs c claim_name app_name desired w ≡ (ok tt, w')
    → Grown c law size w' (key_of claim pvc)
unfolding resize_pvcs resize_to pure
resize_pvcs-Grown c law claim_name app_name desired size old items pvc w w₁ w' wanted listed shown m
      begins asked run =
    let namespace = desired.metadata.namespace in
    let (picked, run_list, same) =
      list_pvcs_by_prefix_lem c claim_name app_name namespace w w₁ items listed in
    let (pvcs, w₂, got, rest) =
      bind_ok (list_pvcs_by_prefix c claim_name app_name namespace) (resize_each c size) tt w w'
        (rw wanted at run) in
    let seen : law.view w₁ ≡ law.view w = rw listed at (law.list_same namespace w) in
    let (is_list, is_world) = pure_ok picked pvcs w₁ w₂ (sym run_list ∙ got) in
    resize_each-Grown c law size picked pvc old w₁ w' ((same pvc).1 (m, begins)) asked
      (inl (rw seen shown)) (rw (is_list, is_world) rest)
