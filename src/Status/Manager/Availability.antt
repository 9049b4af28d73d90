-- ===== src/Status/Manager/Availability.antt =====
-- The phase that the manager computes from the counts of replicas.
use kind_music_streaming.Prelude.{
  Bool-cases, inl, inr, String, ◌≡◌, ◌≢◌, ◌⊎◌, ◌↔◌, refl, true, false, some, arith, both, neither,
  differ,
}
use kind_music_streaming.Prelude.Int.{ℤ, pos, negsuc, ltb_ℤ, eqb_ℤ, ltb_ℤ-lt, eqb_ℤ-eq, ◌<ℤ◌}
use kind_music_streaming.Kube.{Condition}
use kind_music_streaming.Api.{MusicService}
use kind_music_streaming.Exec.{ok}
use kind_music_streaming.Exec.Inversion.{bind_ok, pure_ok}
use kind_music_streaming.Platform.{Client}
use kind_music_streaming.Status.Conditions.{condition_of, with_condition}
use kind_music_streaming.Status.Conditions.Laws.{
  condition_at, transition_time, condition_at-set_condition,
}
use kind_music_streaming.Status.Storage.{set_condition_now}
use kind_music_streaming.Status.Manager.{set_available, with_counts}

-- The phase, and the status and the reason of the condition "Available", fit the counts.
pub record Fits (ready desired : ℤ) (phase status reason : String) : Type 0 where
  pub available : (status ≡ "True") ↔ ((ready ≢ pos 0) × ((ready <ℤ desired) → ⊥))
  pub unavailable : (status ≡ "False") ↔ ((ready ≡ pos 0) ⊎ (ready <ℤ desired))
  pub phase_available : (phase ≡ "Available") ↔ ((ready ≢ pos 0) × ((ready <ℤ desired) → ⊥))
  pub phase_pending : (phase ≡ "Pending") ↔ (ready ≡ pos 0)
  pub phase_progressing : (phase ≡ "Progressing") ↔ ((ready ≢ pos 0) × (ready <ℤ desired))
  pub reason_available : (reason ≡ "PodsReady") ↔ (phase ≡ "Available")
  pub reason_pending : (reason ≡ "PodsNotReady") ↔ (phase ≡ "Pending")
  pub reason_progressing : (reason ≡ "PodsProgressing") ↔ (phase ≡ "Progressing")

-- What a status says of the availability.
pub record Shows (ms : MusicService) (ready desired : ℤ) : Type 0 where
  pub condition : Condition
  pub counts : (ms.status.ready_replicas ≡ ready) × (ms.status.desired_replicas ≡ desired)
  pub current : ms.status.observed_generation ≡ ms.metadata.generation
  pub has_condition : condition_at "Available" ms.status.conditions ≡ some condition
  pub of_generation : condition.observed_generation ≡ ms.metadata.generation
  pub fits : Fits ready desired ms.status.phase condition.status condition.reason

some_ready : (ready : ℤ) → eqb_ℤ ready (pos 0) ≡ false → ready ≢ pos 0
some_ready (pos n) e = ground arith
some_ready (negsuc n) e = ground arith

module _ (ready desired : ℤ) where
  pending-Fits : eqb_ℤ ready (pos 0) ≡ true → Fits ready desired "Pending" "False" "PodsNotReady"
  pending-Fits z =
      let none_ready = (eqb_ℤ-eq ready (pos 0)).0 z in
      record {
        available = neither _ _ refl (λ (ready_some, _). ready_some none_ready);
        unavailable = both refl (inl none_ready);
        phase_available = neither _ _ refl (λ (ready_some, _). ready_some none_ready);
        phase_pending = both refl none_ready;
        phase_progressing = neither _ _ refl (λ (ready_some, _). ready_some none_ready);
        reason_available = differ _ _ _ _ refl refl;
        reason_pending = both refl refl;
        reason_progressing = differ _ _ _ _ refl refl;
      }

  progressing-Fits :
      eqb_ℤ ready (pos 0) ≡ false
      → ltb_ℤ ready desired ≡ true
      → Fits ready desired "Progressing" "False" "PodsProgressing"
  progressing-Fits n l =
      let ready_some = some_ready ready n in
      let fewer = (ltb_ℤ-lt ready desired).0 l in
      record {
        available = neither _ _ refl (λ (_, all_ready). all_ready fewer);
        unavailable = both refl (inr fewer);
        phase_available = neither _ _ refl (λ (_, all_ready). all_ready fewer);
        phase_pending = neither _ _ refl ready_some;
        phase_progressing = both refl (ready_some, fewer);
        reason_available = differ _ _ _ _ refl refl;
        reason_pending = differ _ _ _ _ refl refl;
        reason_progressing = both refl refl;
      }

  available-Fits :
      eqb_ℤ ready (pos 0) ≡ false
      → ltb_ℤ ready desired ≡ false
      → Fits ready desired "Available" "True" "PodsReady"
  available-Fits n l =
      let ready_some = some_ready ready n in
      let not_fewer : (ready <ℤ desired) → ⊥ =
        λ fewer. ground (arith, (ltb_ℤ-lt ready desired).1 fewer) in
      record {
        available = both refl (ready_some, not_fewer);
        unavailable =
            neither _ _ refl (λ p. elim p [ inl z ↦ ready_some z | inr fewer ↦ not_fewer fewer ]);
        phase_available = both refl (ready_some, not_fewer);
        phase_pending = neither _ _ refl ready_some;
        phase_progressing = neither _ _ refl (λ (_, fewer). not_fewer fewer);
        reason_available = both refl refl;
        reason_pending = differ _ _ _ _ refl refl;
        reason_progressing = differ _ _ _ _ refl refl;
      }

module _ (c : Client) (ms ms' : MusicService) (ready desired : ℤ) (w w' : c.World) where
  shows :
      (phase status reason message : String)
      → Fits ready desired phase status reason
      → set_condition_now c (with_counts ms ready desired phase) "Available" status reason message w
        ≡ (ok ms', w')
      → Shows ms' ready desired
  unfolding set_condition_now with_counts with_condition condition_of
  shows phase status reason message fits run =
      let (now, w₁, clock, set) = bind_ok c.now _ ms' w w' run in
      let (same, _) = pure_ok _ ms' w₁ w' set in
      let given =
        condition_of (with_counts ms ready desired phase) "Available" status reason message in
      let found = condition_at-set_condition now given ms.status.conditions "Available" in
      rw (← same) (record {
        condition = record given {
          last_transition_time =
              transition_time now given (condition_at "Available" ms.status.conditions);
        };
        counts = (refl, refl);
        current = refl;
        has_condition = found;
        of_generation = refl;
        fits = fits;
      })

-- However many replicas are ready and desired, the status set shows these counts and the current
-- generation. The phase is "Pending" exactly if none is ready, "Progressing" exactly if some are
-- ready but fewer than desired, and "Available" exactly if some are ready and not fewer than desired;
-- the condition "Available" is then, and only then, "True", otherwise "False", and its reason is the
-- one that belongs to the phase.
pub set_available-Shows :
    (c : Client) (ms ms' : MusicService) (ready desired : ℤ) (w w' : c.World)
    → set_available c ms ready desired w ≡ (ok ms', w')
    → Shows ms' ready desired
unfolding set_available condition_of
set_available-Shows c ms ms' ready desired w w' run = elim (Bool-cases (eqb_ℤ ready (pos 0))) [
  | inl none_ready ↦
      shows c ms ms' ready desired w w' "Pending" "False" "PodsNotReady" _
        (pending-Fits ready desired none_ready) (rw none_ready at run)
  | inr ready_some ↦ elim (Bool-cases (ltb_ℤ ready desired)) [
    | inl fewer ↦
        shows c ms ms' ready desired w w' "Progressing" "False" "PodsProgressing" _
          (progressing-Fits ready desired ready_some fewer) (rw (ready_some, fewer) at run)
    | inr enough ↦
        shows c ms ms' ready desired w w' "Available" "True" "PodsReady" _
          (available-Fits ready desired ready_some enough) (rw (ready_some, enough) at run)
  ]
]
