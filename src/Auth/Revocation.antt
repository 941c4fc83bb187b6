-- ===== src/Auth/Revocation.antt =====
-- internal/auth/revocation.go: the persistent denylist of token identifiers.
-- Times are numbers, with 0 for Go's zero time. A method takes the current time and, where it
-- writes, what the file system did; it returns the list that the call leaves behind.
pub mod Persistence
pub mod Laws
use microagency.Base.{
  ℕ, Bool, true, false, Option, none, some, [], ltb, is_some, Text, text_eq, text_lt, ◌∷◌, ◌==◌,
  if◌then◌else◌,
}
use microagency.Base.Map
use microagency.Base.Map.{Map}

pub data Error : Type 0 where
  invalid_revocation invalid_refresh_token persist_failed : Error

pub data Result {ℓ} (A : Type ℓ) : Type ℓ where
  ok : A → Result A
  err : Error → Result A

-- How `persistLocked` ends when there is a path: an error before the rename leaves the old file, an
-- error after it (the sync of the directory) the new one.
pub data Disk : Type 0 where
  written failed_before_rename failed_after_rename : Disk

-- `path` says whether a path was given; `file` is what the file at it holds, if it is there.
pub record RevocationList : Type 0 where
  pub path : Bool
  pub ids : Map ℕ
  pub file : Option (Map ℕ)

-- `sort.Slice` on the identifiers, which are distinct.
unfoldable pub insert_sorted : Text → ℕ → Map ℕ → Map ℕ
insert_sorted id expiry [] = (id, expiry) ∷ []
insert_sorted id expiry ((j, w) ∷ m) =
    if text_lt j id then (j, w) ∷ insert_sorted id expiry m else (id, expiry) ∷ (j, w) ∷ m

unfoldable pub sorted : Map ℕ → Map ℕ
unfolding insert_sorted
sorted [] = []
sorted ((id, expiry) ∷ m) = insert_sorted id expiry (sorted m)

-- The entries of a file that are still live, in the order of the file.
unfoldable pub load_entries : ℕ → Map ℕ → Map ℕ → Map ℕ
load_entries now [] ids = ids
load_entries now ((id, expiry) ∷ rest) ids =
    load_entries now rest
      (if text_eq id [] then ids else if ltb now expiry then Map.put id expiry ids else ids)

-- `NewRevocationList` over a readable, well-formed file.
unfoldable pub new_revocation_list : Bool → Option (Map ℕ) → ℕ → RevocationList
unfolding load_entries
new_revocation_list false file now = record { path = false; ids = []; file = file }
new_revocation_list true none now = record { path = true; ids = []; file = none }
new_revocation_list true (some entries) now = record {
  path = true;
  ids = load_entries now entries [];
  file = some entries;
}

-- `IsRevoked` deletes an entry that has run out.
unfoldable pub is_revoked : RevocationList → Text → ℕ → RevocationList × Bool
is_revoked r id now = if text_eq id [] then (r, false) else elim (Map.get id r.ids) [
  | none ↦ (r, false)
  | some expiry ↦
      if ltb now expiry then (r, true) else (record r { ids = Map.remove id r.ids }, false)
]

unfoldable pub prune_locked : RevocationList → ℕ → RevocationList
prune_locked r now = record r { ids = Map.retain (λ expiry. ltb now expiry) r.ids }

unfoldable pub persist_locked : RevocationList → Disk → RevocationList × Result (Unit {0})
persist_locked r disk =
    if r.path
    then elim disk [
      | written ↦ (record r { file = some (sorted r.ids) }, ok tt)
      | failed_before_rename ↦ (r, err persist_failed)
      | failed_after_rename ↦ (record r { file = some (sorted r.ids) }, err persist_failed)
    ]
    else (r, ok tt)

unfoldable pub revoke : RevocationList → Text → ℕ → ℕ → Disk → RevocationList × Result (Unit {0})
unfolding prune_locked persist_locked
revoke r id expiry now disk =
    if text_eq id []
    then (r, err invalid_revocation)
    else if expiry == 0
    then (r, err invalid_revocation)
    else let pruned = prune_locked r now in
      persist_locked (record pruned { ids = Map.put id expiry pruned.ids }) disk

-- The result of `Consume` from that of the write.
abbrev consumed : RevocationList × Result (Unit {0}) → RevocationList × Result Bool
consumed (r, ok _) = (r, ok true)
consumed (r, err e) = (r, err e)

unfoldable pub consume : RevocationList → Text → ℕ → ℕ → Disk → RevocationList × Result Bool
unfolding prune_locked persist_locked
consume r id expiry now disk =
    if text_eq id []
    then (r, err invalid_refresh_token)
    else if expiry == 0
    then (r, err invalid_refresh_token)
    else let pruned = prune_locked r now in
      if is_some (Map.get id pruned.ids)
      then (pruned, ok false)
      else consumed (persist_locked (record pruned { ids = Map.put id expiry pruned.ids }) disk)
