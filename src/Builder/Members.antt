-- ===== src/Builder/Members.antt =====
-- The addresses in the script of the Galera nodes.
use kind_music_streaming.Prelude.{
  ℕ, zero, suc, ◌+◌, ◌<◌, ◌≤◌, String, ◌≡◌, refl, List, length, In, arith,
}
use kind_music_streaming.Prelude.Int.{pos}
use kind_music_streaming.Exec.{ok}
use kind_music_streaming.Builder.Scripts.{members_from, member, galera_members}

members_from-length : (host : ℕ → String) (i n : ℕ) → length (members_from host i n) ≡ n
unfolding members_from
members_from-length host i zero = refl
members_from-length host i (suc n) = ground (arith, members_from-length host (i + 1) n)

members_from-In :
    (host : ℕ → String) (i n j : ℕ) → i ≤ j → j < i + n → In (host j) (members_from host i n)
unfolding members_from
members_from-In host i zero j low high = absurd (ground arith)
members_from-In host i (suc n) j low high = ground (arith, members_from-In host (i + 1) n j)

-- For each number of nodes that is not negative, the addresses are as many, and each ordinal below
-- the number has its own among them.
pub galera_members_complete :
    (sts_name namespace : String) (n : ℕ)
    → (members : List String) × (galera_members sts_name namespace (pos n) ≡ ok members)
      × (length members ≡ n)
      × ((j : ℕ) → j < n → In (member sts_name namespace j) members)
unfolding galera_members
galera_members_complete sts_name namespace n =
    let host = member sts_name namespace in
    (
      members_from host 0 n,
      refl,
      members_from-length host 0 n,
      λ j below. members_from-In host 0 n j (ground arith) (ground arith),
    )
