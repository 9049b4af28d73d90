-- ===== src/Reconciler/Secret.antt =====
-- internal/reconciler/database.go: the secret with the replication user and its password.
pub mod Password
pub mod Completion
use Prim.Native.Nat.{◌/◌, ◌%◌}
use kind_music_streaming.Prelude.{
  ℕ, ◌+◌, ◌-◌, Bool, true, false, ◌||◌, Option, none, some, List, [], ◌∷◌, Map, lookup, insert,
  codes, ltb, if◌then◌else◌,
}
use kind_music_streaming.Prelude.Int.{pos, eqb_ℤ}
use kind_music_streaming.Kube.{Secret}
use kind_music_streaming.Api.{DatabaseReplicationSpec, DatabaseSpec, MusicService}
use kind_music_streaming.Exec.{Error, Exec, pure, raise, lift, deref, ◌>>=◌, ◌>>◌, handle}
use kind_music_streaming.Platform.{secret, Library, Client}
use kind_music_streaming.Builder.{name_of, owned_meta, flag_or}

-- A hexadecimal digit, as its ASCII code.
unfoldable pub hex_digit : ℕ → ℕ
hex_digit n = if ltb n 10 then b'0' + n else b'a' + (n - 10)

-- `hex.EncodeToString`
unfoldable pub encode_to_string : List ℕ → List ℕ
unfolding hex_digit
encode_to_string [] = []
encode_to_string (b ∷ bytes) = hex_digit (b / 16) ∷ hex_digit (b % 16) ∷ encode_to_string bytes

enabled_flag : Option DatabaseReplicationSpec → Bool
unfolding flag_or
enabled_flag none = true
enabled_flag (some r) = flag_or r.enabled true

unfoldable pub replication_enabled : MusicService → Bool
unfolding enabled_flag
replication_enabled ms = elim ms.spec.database [
  | none ↦ false
  | some db ↦ enabled_flag db.replication
]

unfoldable pub is_absent {ℓ} : {A : Type ℓ} → Option A → Bool
is_absent none = true
is_absent (some _) = false

module _ (c : Client) where
  unfoldable pub generate_password : ℕ → Exec c.World (List ℕ)
  unfolding encode_to_string pure ◌>>=◌
  generate_password length = do buf ← c.rand_read length; pure (encode_to_string buf)

  -- The data of an existing secret, with the entries that it lacks.
  unfoldable pub complete_data : Map (List ℕ) → Exec c.World (Map (List ℕ))
  unfolding generate_password is_absent lookup insert pure ◌>>=◌
  complete_data contents =
      let named =
        if is_absent (lookup "username" contents)
        then insert "username" (codes "repl") contents
        else contents in
      if is_absent (lookup "password" named)
      then (do password ← generate_password 16; pure (insert "password" password named))
      else pure named

  -- The branch of a secret that exists.
  unfoldable pub complete_secret : Secret → Exec c.World (Option Secret)
  unfolding complete_data
  complete_secret s = do
    filled ← complete_data s.contents
    if is_absent (lookup "username" s.contents) || is_absent (lookup "password" s.contents)
        then (do s' ← c.update secret (record s { contents = filled }); pure (some s'))
        else pure (some s)

module _ (lib : Library) (c : Client) where
  unfoldable pub replication_secret : MusicService → List ℕ → Secret
  unfolding name_of owned_meta
  replication_secret ms password = record {
    metadata = owned_meta lib ms (name_of ms "-db-replication") [];
    type = "Opaque";
    contents = ("username", codes "repl") ∷ ("password", password) ∷ [];
  }

  unfoldable pub create_secret : MusicService → Error → Exec c.World (Option Secret)
  unfolding generate_password replication_secret pure raise ◌>>=◌
  create_secret ms e =
      if e.is_not_found
      then (do
        password ← generate_password c 16
        let s = replication_secret ms password
        c.create secret s
        pure (some s))
      else raise e

  unfoldable pub secret_for : MusicService → DatabaseSpec → Exec c.World (Option Secret)
  unfolding complete_secret create_secret pure handle name_of
  secret_for ms db =
      if eqb_ℤ db.replicas (pos 0)
      then pure none
      else handle (c.get secret (name_of ms "-db-replication")) (create_secret ms)
          (complete_secret c)

  unfoldable pub ensure_replication_secret : MusicService → Exec c.World (Option Secret)
  unfolding secret_for deref lift replication_enabled ◌>>=◌
  ensure_replication_secret ms =
      if replication_enabled ms
      then (do db ← lift (deref ms.spec.database); secret_for ms db)
      else pure none
