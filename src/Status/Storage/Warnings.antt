-- ===== src/Status/Storage/Warnings.antt =====
-- Which warning of the storage is set.
use kind_music_streaming.Prelude.{
  String, ◌≡◌, ◌≢◌, ◌⊎◌, ◌↔◌, refl, ap, ◌∙◌, true, false, Bool-cases, Option-cases, inl, inr, none,
  some, List, [], ◌∷◌, In, lookup, arith, eq_iff, ◌===◌, ◌<>◌, starts_with, both, neither,
}
use kind_music_streaming.Prelude.Int.{ltb_ℤ-lt, ◌<ℤ◌}
use kind_music_streaming.Kube.{Quantity, Condition, PersistentVolumeClaim, StatefulSet}
use kind_music_streaming.Api.{MusicService}
use kind_music_streaming.Exec.{ok, handle}
use kind_music_streaming.Exec.Inversion.{bind_ok, pure_ok}
use kind_music_streaming.Platform.{Library, Client}
use kind_music_streaming.Status.Conditions.{condition_of, with_condition}
use kind_music_streaming.Status.Conditions.Laws.{
  condition_at, transition_time, condition_at-set_condition,
}
use kind_music_streaming.Reconciler.Storage.{has_prefix, claim_prefix}
use kind_music_streaming.Reconciler.Storage.Prefix.{
  list_pvcs_by_prefix_lem, list_pvcs_by_prefix-agree,
}
use kind_music_streaming.Status.Storage.{
  first_request, is_below, desired_below, storage_request_from_stateful_set, shrinks, any_unbound,
  list_pvcs_by_prefix, set_condition_now, storage_healthy, update_storage_warnings,
}

-- A quantity below the one that the StatefulSet's first claim template requests is asked for.
pub record Smaller (lib : Library) (sts : StatefulSet) (size : String) : Type 0 where
  pub template : PersistentVolumeClaim
  pub others : List PersistentVolumeClaim
  pub current : Quantity
  pub desired : Quantity
  pub has_template : sts.spec.volume_claim_templates ≡ template ∷ others
  pub requested : lookup "storage" template.requests ≡ some current
  pub given : size ≢ ""
  pub parsed : lib.parse_quantity size ≡ some desired
  pub below : desired.thousandths <ℤ current.thousandths

abbrev Unready : List PersistentVolumeClaim → Type 0
Unready pvcs = (pvc : PersistentVolumeClaim) × In pvc pvcs × (pvc.phase ≢ "Bound")

-- A claim of the listing whose name begins with the prefix has another phase than "Bound".
pub record Unbound (items : List PersistentVolumeClaim) (prefix : String) : Type 0 where
  pub pvc : PersistentVolumeClaim
  pub there : In pvc items
  pub begins : starts_with pvc.metadata.name prefix ≡ true
  pub other_phase : pvc.phase ≢ "Bound"

-- What the condition says, by whether a smaller size is asked for and whether a claim is unbound.
pub record Verdict (S U : Type 0) (status reason : String) : Type 0 where
  pub shrinking : (reason ≡ "ShrinkNotSupported") ↔ S
  pub not_bound : (reason ≡ "PVCNotBound") ↔ ((S → ⊥) × U)
  pub healthy : (reason ≡ "StorageHealthy") ↔ ((S → ⊥) × (U → ⊥))
  pub is_true : (status ≡ "True") ↔ ((S → ⊥) × (U → ⊥))
  pub is_false : (status ≡ "False") ↔ (S ⊎ U)

module _ {S U : Type 0} where
  shrinking-Verdict : S → Verdict S U "False" "ShrinkNotSupported"
  shrinking-Verdict s = record {
    shrinking = both refl s;
    not_bound = neither _ _ refl (λ (fits, _). fits s);
    healthy = neither _ _ refl (λ (fits, _). fits s);
    is_true = neither _ _ refl (λ (fits, _). fits s);
    is_false = both refl (inl s);
  }

  unbound-Verdict : (S → ⊥) → U → Verdict S U "False" "PVCNotBound"
  unbound-Verdict fits u = record {
    shrinking = neither _ _ refl fits;
    not_bound = both refl (fits, u);
    healthy = neither _ _ refl (λ (_, bound). bound u);
    is_true = neither _ _ refl (λ (_, bound). bound u);
    is_false = both refl (inr u);
  }

  healthy-Verdict : (S → ⊥) → (U → ⊥) → Verdict S U "True" "StorageHealthy"
  healthy-Verdict fits bound = record {
    shrinking = neither _ _ refl fits;
    not_bound = neither _ _ refl (λ (_, u). bound u);
    healthy = both refl (fits, bound);
    is_true = both refl (fits, bound);
    is_false = neither _ _ refl (λ p. elim p [ inl s ↦ fits s | inr u ↦ bound u ]);
  }

-- A status whose condition of a type is for the current generation, with this verdict.
pub record Warns (ms ms' : MusicService) (type : String) (S U : Type 0) : Type 0 where
  pub condition : Condition
  pub has_condition : condition_at type ms'.status.conditions ≡ some condition
  pub verdict : Verdict S U condition.status condition.reason
  pub of_generation : condition.observed_generation ≡ ms.metadata.generation
  pub phase : ms'.status.phase ≡ ms.status.phase

any_unbound-Unready : (pvcs : List PersistentVolumeClaim) → any_unbound pvcs ≡ true → Unready pvcs
unfolding any_unbound
any_unbound-Unready [] e = absurd (ground arith)
any_unbound-Unready (pvc ∷ pvcs) e = elim (Bool-cases (pvc.phase === "Bound")) [
  | inl bound ↦
      let (x, there, other) = any_unbound-Unready pvcs (rw bound at e) in (x, inr there, other)
  | inr unbound ↦ (pvc, inl refl, λ same. ground (arith, eq_iff pvc.phase "Bound"))
]

Unready-any_unbound :
    (pvcs : List PersistentVolumeClaim) (pvc : PersistentVolumeClaim)
    → In pvc pvcs
    → pvc.phase ≢ "Bound"
    → any_unbound pvcs ≡ true
unfolding any_unbound
Unready-any_unbound [] pvc there other = absurd there
Unready-any_unbound (x ∷ pvcs) pvc (inl here) other = ground (arith, eq_iff x.phase "Bound")
Unready-any_unbound (x ∷ pvcs) pvc (inr there) other =
    ground (arith, Unready-any_unbound pvcs pvc there other)

module _ (lib : Library) (sts : StatefulSet) (size : String) where
  shrinks-Smaller : shrinks lib sts size ≡ true → Smaller lib sts size
  unfolding shrinks desired_below is_below storage_request_from_stateful_set first_request
  shrinks-Smaller e = by_templates sts.spec.volume_claim_templates refl e
    where
      by_size :
          (current : Quantity)
          → desired_below lib current size ≡ true
          → (desired : Quantity) × (size ≢ "")
            × (lib.parse_quantity size ≡ some desired)
            × (desired.thousandths <ℤ current.thousandths)
      by_size current e = elim (Option-cases (lib.parse_quantity size)) [
        | inl none_parsed ↦ absurd (ground arith)
        | inr (desired, parsed) ↦ (
          desired,
          λ empty. ground (arith, eq_iff size ""),
          parsed,
          ground (arith, ltb_ℤ-lt desired.thousandths current.thousandths),
        )
      ]

      by_templates :
          (templates : List PersistentVolumeClaim)
          → sts.spec.volume_claim_templates ≡ templates
          → elim (first_request templates) [
            | none ↦ false
            | some current ↦ desired_below lib current size
          ]
            ≡ true
          → Smaller lib sts size
      by_templates [] found e = absurd (ground arith)
      by_templates (template ∷ others) found e =
          elim (Option-cases (lookup "storage" template.requests)) [
            | inl none_requested ↦ absurd (ground arith)
            | inr (current, requested) ↦
                let (desired, given, parsed, below) = by_size current (rw requested at e) in
                record {
                  template = template;
                  others = others;
                  current = current;
                  desired = desired;
                  has_template = found;
                  requested = requested;
                  given = given;
                  parsed = parsed;
                  below = below;
                }
          ]

  Smaller-request :
      (s : Smaller lib sts size) → storage_request_from_stateful_set sts ≡ some s.current
  unfolding storage_request_from_stateful_set first_request
  Smaller-request s = ap first_request s.has_template ∙ s.requested

  Smaller-shrinks : Smaller lib sts size → shrinks lib sts size ≡ true
  unfolding shrinks desired_below is_below
  Smaller-shrinks s =
      rw (shrinks, Smaller-request s)
        (ground (
          arith,
          s.parsed,
          s.given,
          s.below,
          eq_iff size "",
          ltb_ℤ-lt s.desired.thousandths s.current.thousandths,
        ))

module _ (c : Client) (ms ms' : MusicService) (w w' : c.World) where
  warns :
      {S U : Type 0} (type status reason message : String)
      → Verdict S U status reason
      → set_condition_now c ms type status reason message w ≡ (ok ms', w')
      → Warns ms ms' type S U
  unfolding set_condition_now with_condition condition_of
  warns type status reason message verdict run =
      let (now, w₁, clock, set) = bind_ok c.now _ ms' w w' run in
      let (same, _) = pure_ok _ ms' w₁ w' set in
      let given = condition_of ms type status reason message in
      rw (← same) (record {
        condition = record given {
          last_transition_time = transition_time now given (condition_at type ms.status.conditions);
        };
        has_condition = ground (
          arith,
          condition_at-set_condition now given ms.status.conditions type,
          eq_iff type type,
        );
        verdict = verdict;
        of_generation = refl;
        phase = refl;
      })

module _ (lib : Library) (c : Client) (ms ms' : MusicService) (sts : StatefulSet)
    (w w₁ w' : c.World) (items : List PersistentVolumeClaim) where
  -- When the claims of the namespace can be listed, the condition of the given type is set for the
  -- current generation. Its reason is "ShrinkNotSupported" exactly if a quantity is asked for that is
  -- below the one that the StatefulSet's first claim template requests, "PVCNotBound" exactly if that
  -- is not so and a listed claim of the application has another phase than "Bound", and
  -- "StorageHealthy" exactly if neither is so; it is "True" in the last case, otherwise "False". The
  -- phase is left alone.
  pub update_storage_warnings-Warns :
      (claim_name app_name desired_size type : String)
      → c.list ms.metadata.namespace w ≡ (ok items, w₁)
      → update_storage_warnings lib c ms sts claim_name app_name desired_size type w ≡ (ok ms', w')
      → Warns ms ms' type
          (Smaller lib sts desired_size)
          (Unbound items (claim_name <> "-" <> app_name <> "-"))
  unfolding update_storage_warnings storage_healthy handle has_prefix claim_prefix
  update_storage_warnings-Warns claim_name app_name desired_size type listed run =
      let namespace = ms.metadata.namespace in
      let (picked, found, same) =
        list_pvcs_by_prefix_lem c claim_name app_name namespace w w₁ items listed in
      let asked : list_pvcs_by_prefix c claim_name app_name namespace w ≡ (ok picked, w₁) =
        rw (list_pvcs_by_prefix-agree c claim_name app_name namespace) at found in
      elim (Bool-cases (shrinks lib sts desired_size)) [
        | inl smaller ↦
            warns c ms ms' w w' type _ _ _
              (shrinking-Verdict (shrinks-Smaller lib sts desired_size smaller)) (rw smaller at run)
        | inr fits ↦
            let not_smaller : Smaller lib sts desired_size → ⊥ =
              λ s. ground (arith, Smaller-shrinks lib sts desired_size s) in
            elim (Bool-cases (any_unbound picked)) [
              | inl unbound ↦
                  let (pvc, there, other) = any_unbound-Unready picked unbound in
                  let (here, begins) = (same pvc).0 there in
                  warns c ms ms' w₁ w' type _ _ _
                    (unbound-Verdict not_smaller
                      (record { pvc = pvc; there = here; begins = begins; other_phase = other }))
                    (rw (fits, asked, unbound) at run)
              | inr bound ↦
                  warns c ms ms' w₁ w' type _ _ _
                    (healthy-Verdict not_smaller (λ u. ground (
                      arith,
                      Unready-any_unbound picked u.pvc ((same u.pvc).1 (u.there, u.begins))
                          u.other_phase,
                    )))
                    (rw (fits, asked, bound) at run)
            ]
      ]
