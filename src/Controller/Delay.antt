-- ===== src/Controller/Delay.antt =====
-- The delay before the next round.
use kind_music_streaming.Prelude.{
  ℕ, sym, ◌≡◌, ◌↔◌, ◌⊎◌, inl, inr, ap, Bool, true, false, if◌then◌else◌, arith,
}
use kind_music_streaming.Prelude.Int.{◌<ℤ◌, ltb_ℤ, ltb_ℤ-lt}
use kind_music_streaming.Api.{MusicService}
use kind_music_streaming.Exec.{ok}
use kind_music_streaming.Exec.Inversion.{pure_ok, bind_ok}
use kind_music_streaming.Platform.{Library, Client}
use kind_music_streaming.Status.Manager.{update_reconciled}
use kind_music_streaming.Controller.{Result, sync_app, sync_database, finish}

-- The MusicService that the server sent back for the last update of the status, and the delay for it:
-- 5 seconds while it has fewer ready replicas than its spec asks for, and 30 seconds else.
pub record Paces (c : Client) (world' : c.World) (result : Result) : Type 0 where
  pub subject : MusicService
  pub written : MusicService
  pub world : c.World
  pub update : update_reconciled c subject world ≡ (ok written, world')
  pub soon : (result.requeue_after ≡ 5) ↔ (written.status.ready_replicas <ℤ written.spec.replicas)
  pub either : (result.requeue_after ≡ 5) ⊎ (result.requeue_after ≡ 30)

abbrev delay : Bool → ℕ
delay waits = if waits then 5 else 30

delay-soon : (waits : Bool) (n : ℕ) → delay waits ≡ n → (n ≡ 5) ↔ (waits ≡ true)
delay-soon true n e = ground arith
delay-soon false n e = ground arith

delay-either : (waits : Bool) (n : ℕ) → delay waits ≡ n → (n ≡ 5) ⊎ (n ≡ 30)
delay-either true n e = inl (sym e)
delay-either false n e = inr (sym e)

-- When the end of a round returns, its last call was the one that writes the status as reconciled,
-- and the delay is 5 seconds exactly if the MusicService that the server sent back has fewer ready
-- replicas than its spec asks for, and 30 seconds else.
pub finish-Paces :
    (lib : Library) (c : Client) (ms : MusicService) (r : Result) (w w' : c.World)
    → finish lib c ms w ≡ (ok r, w')
    → Paces c w' r
unfolding finish
finish-Paces lib c ms r w w' run =
    let (ms₁, w₁, _, rest₁) = bind_ok (sync_app lib c ms) _ r w w' run in
    let (ms₂, w₂, _, rest₂) = bind_ok (sync_database lib c ms₁) _ r w₁ w' rest₁ in
    let (ms₃, w₃, ran, rest₃) = bind_ok (update_reconciled c ms₂) _ r w₂ w' rest₂ in
    let waits = ltb_ℤ ms₃.status.ready_replicas ms₃.spec.replicas in
    let (same, still) =
      pure_ok (record { requeue_after = if waits then 5 else 30 }) r w₃ w' rest₃ in
    let is_delay : delay waits ≡ r.requeue_after = ap (λ x. x.requeue_after) same in
    let less = ltb_ℤ-lt ms₃.status.ready_replicas ms₃.spec.replicas in
    let soon = delay-soon waits r.requeue_after is_delay in
    record {
      subject = ms₂;
      written = ms₃;
      world = w₂;
      update = rw still at ran;
      soon = (λ five. less.0 (soon.0 five), λ lt. soon.1 (less.1 lt));
      either = delay-either waits r.requeue_after is_delay;
    }
