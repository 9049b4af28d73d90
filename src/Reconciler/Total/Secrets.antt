-- ===== src/Reconciler/Total/Secrets.antt =====
-- The replication secret on a steady server.
use kind_music_streaming.Prelude.{ℕ, Bool, ◌||◌, List, Map, lookup, insert, codes, if◌then◌else◌}
use kind_music_streaming.Prelude.Int.{pos, eqb_ℤ}
use kind_music_streaming.Kube.{Secret}
use kind_music_streaming.Api.{DatabaseSpec, MusicService}
use kind_music_streaming.Exec.{Error, pure, ◌>>=◌}
use kind_music_streaming.Exec.Ensures.{
  Safe, Ensures-pure, Ensures-raise, Ensures-if, Ensures-bind, Ensures-handle,
}
use kind_music_streaming.Platform.{secret, Library, Client}
use kind_music_streaming.Builder.{name_of}
use kind_music_streaming.Reconciler.Secret.{
  is_absent, generate_password, complete_data, complete_secret, create_secret, secret_for,
  replication_secret,
}
use kind_music_streaming.Reconciler.Total.Sets.{NotRead, other_error, Steady}

module _ (E : Error → Type 0) (lib : Library) (c : Client) (steady : Steady E lib c) where
  generate-Safe : (n : ℕ) → Safe E (generate_password c n)
  unfolding generate_password
  generate-Safe n = Ensures-bind (c.rand_read n) _ (steady.random n) (λ buf _. Ensures-pure _ tt)

  fill-Safe :
      (absent : Bool) (named : Map (List ℕ))
      → Safe E (
          if absent
          then (generate_password c 16 >>= λ password. pure (insert "password" password named))
          else pure named)
  fill-Safe absent named =
      Ensures-if absent _ _
        (λ _.
          Ensures-bind (generate_password c 16) _ (generate-Safe 16)
            (λ password _. Ensures-pure (insert "password" password named) tt))
        (λ _. Ensures-pure named tt)

  complete_data-Safe : (contents : Map (List ℕ)) → Safe E (complete_data c contents)
  unfolding complete_data
  complete_data-Safe contents =
      let named =
        if is_absent (lookup "username" contents)
        then insert "username" (codes "repl") contents
        else contents in
      fill-Safe (is_absent (lookup "password" named)) named

  complete_secret-Safe : (s : Secret) → Safe E (complete_secret c s)
  unfolding complete_secret
  complete_secret-Safe s =
      Ensures-bind (complete_data c s.contents) _ (complete_data-Safe s.contents) (λ filled _.
        Ensures-if
          (is_absent (lookup "username" s.contents) || is_absent (lookup "password" s.contents)) _ _
          (λ _.
            Ensures-bind (c.update secret (record s { contents = filled })) _
              (steady.updates secret _) (λ s' _. Ensures-pure _ tt))
          (λ _. Ensures-pure _ tt))

  create_secret-Safe :
      (ms : MusicService) (e : Error) → NotRead E e → Safe E (create_secret lib c ms e)
  unfolding create_secret
  create_secret-Safe ms e unread =
      Ensures-if e.is_not_found _ _
        (λ _. Ensures-bind (generate_password c 16) _ (generate-Safe 16) (λ password _.
          Ensures-bind (c.create secret (replication_secret lib c ms password)) _
            (steady.creates secret _) (λ _ _. Ensures-pure _ tt)))
        (λ other. Ensures-raise e (other_error E lib c steady e unread other))

  pub secret_for-Safe : (ms : MusicService) (db : DatabaseSpec) → Safe E (secret_for lib c ms db)
  unfolding secret_for
  secret_for-Safe ms db =
      Ensures-if (eqb_ℤ db.replicas (pos 0)) _ _ (λ _. Ensures-pure _ tt)
        (λ _.
          Ensures-handle (c.get secret (name_of ms "-db-replication")) _ _ (steady.gets secret _)
            (create_secret-Safe ms) (λ s _. complete_secret-Safe s))
