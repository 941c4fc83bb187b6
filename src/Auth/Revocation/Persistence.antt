-- ===== src/Auth/Revocation/Persistence.antt =====
-- What a restart finds in the file that `persistLocked` wrote.
use microagency.Base.{
  ℕ, refl, true, none, some, [], arith, ltb, Text, text_eq, text_eq_refl, text_eq_iff, ◌<◌, ◌≡◌,
  ◌≢◌, ◌∙◌, ◌∷◌, if◌then◌else◌,
}
use microagency.Base.Map
use microagency.Base.Map.{Map, sift, get-put, get-retain, IsMap, retain-IsMap, put-IsMap}
use microagency.Auth.Revocation.{
  RevocationList, Disk, ok, insert_sorted, sorted, load_entries, new_revocation_list, is_revoked,
  consume,
}

get-insert_sorted :
    (id j : Text) (e : ℕ) (m : Map ℕ)
    → Map.get id m ≡ none
    → Map.get j (insert_sorted id e m) ≡ (if text_eq id j then some e else Map.get j m)
unfolding insert_sorted Map.get
get-insert_sorted id j e [] h = refl
get-insert_sorted id j e ((i, w) ∷ m) h =
    ground (arith, get-insert_sorted id j e m, text_eq_iff i id, text_eq_iff i j, text_eq_iff id j)

insert_sorted-IsMap :
    (id : Text) (e : ℕ) (m : Map ℕ) → Map.get id m ≡ none → IsMap m → IsMap (insert_sorted id e m)
unfolding insert_sorted Map.get
insert_sorted-IsMap id e [] h v = (refl, tt)
insert_sorted-IsMap id e ((i, w) ∷ m) h v = ground (
  arith,
  text_eq_iff i id,
  text_eq_iff id i,
  get-insert_sorted id i e m,
  insert_sorted-IsMap id e m,
)

-- Sorting changes no entry.
get-sorted :
    (j : Text) (m : Map ℕ) → IsMap m → (Map.get j (sorted m) ≡ Map.get j m) × IsMap (sorted m)
unfolding sorted Map.get
get-sorted j [] v = (refl, tt)
get-sorted j ((i, w) ∷ m) v = (
  ground (arith, get-insert_sorted i j w (sorted m), get-sorted j m v.1, get-sorted i m v.1),
  insert_sorted-IsMap i w (sorted m) ((get-sorted i m v.1).0 ∙ v.0) (get-sorted j m v.1).1,
)

-- Loading a map of distinct identifiers keeps what is live, and no empty identifier.
get-load_entries :
    (j : Text) (now : ℕ) (m ids : Map ℕ)
    → IsMap m
    → j ≢ []
    → Map.get j (load_entries now m ids)
      ≡ (elim (sift (λ e. ltb now e) (Map.get j m)) [ some e ↦ some e | none ↦ Map.get j ids ])
unfolding load_entries Map.get
get-load_entries j now [] ids v ne = refl
get-load_entries j now ((i, w) ∷ m) ids v ne = ground (
  arith,
  text_eq_iff i j,
  text_eq_iff i [],
  get-load_entries j now m ids v.1 ne,
  get-load_entries j now m (Map.put i w ids) v.1 ne,
  get-put i j w ids,
)

abbrev live : ℕ → Map ℕ → Map ℕ
live now = Map.retain (λ expiry. ltb now expiry)

-- What a successful `Consume` leaves in the file.
file-consume :
    (id : Text) (expiry : ℕ) (r : RevocationList) (t : ℕ) (disk : Disk)
    → r.path ≡ true
    → (consume r id expiry t disk).1 ≡ ok true
    → ((consume r id expiry t disk).0.file ≡ some (sorted (Map.put id expiry (live t r.ids))))
      × (id ≢ [])
unfolding consume
file-consume id expiry r t disk p h = ground (arith, text_eq_iff id [])

-- A list that starts from the sorted entries of a map denies each live identifier.
loaded-is_revoked :
    (id : Text) (expiry : ℕ) (m : Map ℕ) (start now : ℕ)
    → IsMap m
    → id ≢ []
    → Map.get id m ≡ some expiry
    → start < expiry
    → now < expiry
    → (is_revoked (new_revocation_list true (some (sorted m)) start) id now).1 ≡ true
unfolding is_revoked new_revocation_list
loaded-is_revoked id expiry m start now v ne g ls ln = ground (
  arith,
  text_eq_iff id [],
  get-sorted id m v,
  get-load_entries id start (sorted m) [] (get-sorted id m v).1 ne,
)

-- After a `Consume` that succeeded, a gateway that starts again from the file still finds the
-- identifier revoked, at any time before its expiry.
pub restart-is_revoked :
    (id : Text) (expiry : ℕ) (r : RevocationList) (t : ℕ) (disk : Disk) (start now : ℕ)
    → IsMap r.ids
    → r.path ≡ true
    → (consume r id expiry t disk).1 ≡ ok true
    → start < expiry
    → now < expiry
    → (is_revoked (new_revocation_list true (consume r id expiry t disk).0.file start) id now).1
      ≡ true
restart-is_revoked id expiry r t disk start now v p h ls ln =
    let (saved, ne) = file-consume id expiry r t disk p h in
    let m = Map.put id expiry (live t r.ids) in
    rw saved (
      loaded-is_revoked id expiry m start now
        (put-IsMap id expiry (live t r.ids) (retain-IsMap (λ e. ltb t e) r.ids v)) ne
        (ground (arith, get-put id id expiry (live t r.ids), text_eq_refl id)) ls ln)
