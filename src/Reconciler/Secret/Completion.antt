-- ===== src/Reconciler/Secret/Completion.antt =====
-- What becomes of a secret that exists.
use kind_music_streaming.Prelude.{
  String, Bool, true, false, [], sym, ◌≡◌, ◌≢◌, none, some, List, ℕ, Map, lookup, insert,
  lookup-insert, codes, arith, if◌then◌else◌, eq_iff,
}
use kind_music_streaming.Exec.{ok, pure, ◌>>=◌}
use kind_music_streaming.Exec.Inversion.{bind_ok, pure_ok}
use kind_music_streaming.Platform.{Client}
use kind_music_streaming.Reconciler.Secret.{is_absent, complete_data, generate_password}

-- The data with the missing entries, for a password in case it is needed.
completed : List ℕ → Map (List ℕ) → Map (List ℕ)
unfolding is_absent
completed password contents =
    let named =
      if is_absent (lookup "username" contents)
      then insert "username" (codes "repl") contents
      else contents in
    if is_absent (lookup "password" named) then insert "password" password named else named

-- The data has both entries, and all that it had before.
pub record Completes (contents filled : Map (List ℕ)) : Type 0 where
  pub has_user : lookup "username" filled ≢ none
  pub has_password : lookup "password" filled ≢ none
  pub keeps : (k : String) (v : List ℕ) → lookup k contents ≡ some v → lookup k filled ≡ some v

module _ (password : List ℕ) (contents : Map (List ℕ)) where
  completed-Completes : Completes contents (completed password contents)
  unfolding completed is_absent
  completed-Completes = record {
    has_user = ground (
      arith,
      lookup-insert "username" "username" (codes "repl") contents,
      lookup-insert "password" "username" password contents,
      lookup-insert "password" "username" password (insert "username" (codes "repl") contents),
    );
    has_password = ground (
      arith,
      lookup-insert "password" "password" password contents,
      lookup-insert "password" "password" password (insert "username" (codes "repl") contents),
    );
    keeps = λ k v found. ground (
      arith,
      eq_iff "username" k,
      eq_iff "password" k,
      lookup-insert "username" "password" (codes "repl") contents,
      lookup-insert "username" k (codes "repl") contents,
      lookup-insert "password" k password contents,
      lookup-insert "password" k password (insert "username" (codes "repl") contents),
    );
  }

fill :
    (c : Client) (absent : Bool) (named filled : Map (List ℕ)) (w w' : c.World)
    → (if absent
          then (generate_password c 16 >>= λ password. pure (insert "password" password named))
          else pure named)
        w
      ≡ (ok filled, w')
    → (password : List ℕ) × (filled ≡ (if absent then insert "password" password named else named))
fill c true named filled w w' run =
    let (password, w₁, made, last) =
      bind_ok (generate_password c 16) (λ password. pure (insert "password" password named)) filled
        w w' run in
    let (same, _) = pure_ok (insert "password" password named) filled w₁ w' last in
    (password, sym same)
fill c false named filled w w' run = let (same, _) = pure_ok named filled w w' run in ([], sym same)

complete_data-completed :
    (c : Client) (contents filled : Map (List ℕ)) (w w' : c.World)
    → complete_data c contents w ≡ (ok filled, w')
    → (password : List ℕ) × (filled ≡ completed password contents)
unfolding complete_data completed
complete_data-completed c contents filled w w' run =
    let named =
      if is_absent (lookup "username" contents)
      then insert "username" (codes "repl") contents
      else contents in
    fill c (is_absent (lookup "password" named)) named filled w w' run

-- The data of a secret that has been completed has a user and a password, and each entry that the
-- secret had before, a user or a password of somebody else's among them, is as it was.
pub complete_data-Completes :
    (c : Client) (contents filled : Map (List ℕ)) (w w' : c.World)
    → complete_data c contents w ≡ (ok filled, w')
    → Completes contents filled
complete_data-Completes c contents filled w w' run =
    let (password, same) = complete_data-completed c contents filled w w' run in
    rw same (completed-Completes password contents)
