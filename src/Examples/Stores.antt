-- ===== src/Examples/Stores.antt =====
-- Operator tokens, reference handles and the store behind them.
use microagency.Base.{
  ℕ, refl, true, none, some, [], arith, length, all, Text, codes, text_eq, ◌*◌, ◌/◌, ◌≤◌, ◌<◌, ◌≡◌,
  ◌≢◌, ◌↔◌, ◌⊎◌, ◌∷◌, ◌++◌, if◌then◌else◌,
}
use microagency.Base.Map
use microagency.Base.Map.{Map, IsMap}
use mathlib.Core.List.{Memᴰ}
use microagency.Optoken.{
  admin, auditor, Token, File, tokens, create, rotate, revoke, authenticate, is_expired, match_hash,
  has_name,
}
use microagency.Optoken.Lifecycle.{
  HasDistinct, Unmatched, rotates, apply, created_token, revoke-authenticate, revoke-others,
  create-authenticate, create-others, rotate-old, rotate-authenticate, apply-HasDistinct,
}
use microagency.Refstore.Handle.{rand_ref, ref_token, is_base62, ref_token_iff, ref_token-rand_ref}
use microagency.Refstore.Mem
use microagency.Refstore.Mem.{Item, MemStore, new_bounded_mem_store}
use microagency.Refstore.Mem.Sweep.{Visits}
use microagency.Refstore.Mem.Keeps.{put-IsBounded, get-put_owner}
use microagency.Refstore.Gate.{Outcome, inline, reffed, apply-get}
use microagency.Refstore.Gate as Gate

abbrev hash : Text → Text
hash t = t

abbrev ann : Token
ann = record {
  name = codes "ann";
  role = admin;
  sha256 = codes "s1";
  created = 5;
  expires = some 50;
}

abbrev bob : Token
bob = record {
  name = codes "bob";
  role = auditor;
  sha256 = codes "s2";
  created = 6;
  expires = none;
}

abbrev file : File
file = tokens (ann ∷ bob ∷ [])

ne-by-head : (c d : ℕ) (s t : Text) → c ≢ d → c ∷ s ≢ d ∷ t
ne-by-head c d s t ne e = ground (arith, ne, e)

cons-ne-nil : (c : ℕ) (s : Text) → c ∷ s ≢ []
cons-ne-nil c s e = ground (arith, e)

revoke-authenticate_example : codes "bob" ≢ codes "ann"
unfolding revoke authenticate text_eq
revoke-authenticate_example =
    revoke-authenticate hash (codes "ann") (codes "s2") 10 true file bob refl refl

revoke-others_example :
    authenticate hash (codes "s2") 10 (revoke (codes "ann") true file).0 ≡ some bob
unfolding authenticate text_eq
revoke-others_example =
    revoke-others hash (codes "ann") (codes "s2") 10 true file bob refl
      (ne-by-head _ _ _ _ (omega arith))

create-authenticate_example :
    authenticate hash
      (codes "s3")
      20
      (create hash (codes "cy") admin (some 30) (some (codes "s3")) 10 true file).0
    ≡ (if is_expired (created_token hash (codes "cy") admin (some 30) 10 (codes "s3")) 20
        then none
        else some (created_token hash (codes "cy") admin (some 30) 10 (codes "s3")))
unfolding create text_eq Unmatched match_hash all
create-authenticate_example =
    create-authenticate hash (codes "cy") admin (some 30) (some (codes "s3")) 10 true file
      (codes "s3") 20 (cons-ne-nil _ _) refl refl

create-others_example :
    authenticate hash
      (codes "t2")
      20
      (create hash (codes "cy") admin (some 30) (some (codes "s3")) 10 true file).0
    ≡ authenticate hash (codes "t2") 20 file
unfolding create text_eq all
create-others_example =
    create-others hash (codes "cy") admin (some 30) (some (codes "s3")) 10 true file (codes "s3")
      (codes "t2") 20 refl (ne-by-head _ _ _ _ (omega arith))

rotate-old_example : codes "bob" ≢ codes "ann"
unfolding rotate authenticate text_eq HasDistinct has_name
rotate-old_example =
    rotate-old hash (codes "ann") none (some (codes "t3")) 10 true file (codes "t3") (codes "s2") 20
      bob (refl, (refl, tt)) refl (ne-by-head _ _ _ _ (omega arith)) refl

rotate-authenticate_example :
    (old : Token) × Memᴰ old (ann ∷ bob ∷ [])
    × (old.name ≡ codes "ann")
    × (let new : Token = record {
      name = codes "ann";
      role = old.role;
      sha256 = codes "t3";
      created = 10 / 1000000000 * 1000000000;
      expires = old.expires;
    } in
        authenticate hash
          (codes "t3")
          20
          (rotate hash (codes "ann") none (some (codes "t3")) 10 true file).0
        ≡ (if is_expired new 20 then none else some new))
unfolding rotate text_eq Unmatched match_hash
rotate-authenticate_example =
    rotate-authenticate hash (codes "ann") none (some (codes "t3")) 10 true (ann ∷ bob ∷ [])
      (codes "t3") 20 (cons-ne-nil _ _) refl refl

apply-HasDistinct_example :
    HasDistinct (apply hash (rotates (codes "ann") none (some (codes "t3")) 10 true) file)
unfolding HasDistinct text_eq has_name
apply-HasDistinct_example =
    apply-HasDistinct hash (rotates (codes "ann") none (some (codes "t3")) 10 true) file
      (refl, (refl, tt))

abbrev handle : Text
handle = codes "<ref_0123456789AB>"

ref_token_iff_example : (ref_token handle ≡ some (codes "0123456789AB")) ↔ (
    (handle ≡ codes "<ref_" ++ (codes "0123456789AB" ++ codes ">"))
    × (all is_base62 (codes "0123456789AB") ≡ true)
    × (codes "0123456789AB" ≢ []))
ref_token_iff_example = ref_token_iff handle (codes "0123456789AB")

ref_token-rand_ref_example : (tok : Text) × (ref_token handle ≡ some tok) × (length tok ≡ 12)
unfolding rand_ref
ref_token-rand_ref_example =
    ref_token-rand_ref (255 ∷ 0 ∷ 1 ∷ 64 ∷ 3 ∷ 4 ∷ 5 ∷ 6 ∷ 7 ∷ 8 ∷ 9 ∷ 10 ∷ 11 ∷ []) handle refl

-- A walk in the order of the list.
in_order : Visits (λ m. m)
in_order = record { length-visit = λ m. refl; get-visit = λ ref m. refl; visit-IsMap = λ m v. v }

abbrev old_item : Item
old_item = record { payload = codes "old"; owner = codes "ann"; created = 3 }

abbrev store : MemStore
store = record (new_bounded_mem_store 100 1) { items = (codes "<ref_a>", old_item) ∷ [] }

abbrev written : MemStore
written = record store {
  items =
      (codes "<ref_b>", record { payload = codes "new"; owner = codes "bob"; created = 10 }) ∷ [];
}

puts :
    Mem.put
      (λ m. m)
      (codes "<ref_a>" ∷ codes "<ref_b>" ∷ [])
      10
      11
      (codes "new")
      (codes "bob")
      store
    ≡ some (written, codes "<ref_b>")
unfolding Mem.put Map.get text_eq new_bounded_mem_store Map.retain Map.put Map.remove
puts = refl

put-IsBounded_example : (length written.items ≤ 1) × (written.max_entries ≡ 1)
unfolding new_bounded_mem_store Map.get
put-IsBounded_example =
    put-IsBounded (λ m. m) (codes "<ref_a>" ∷ codes "<ref_b>" ∷ []) 10 11 (codes "new")
      (codes "bob") store written (codes "<ref_b>") in_order (refl, tt) (omega arith) puts

older : (r : Text) (it : Item) → Map.get r store.items ≡ some it → it.created < 10
unfolding Map.get new_bounded_mem_store
older r it g = ground arith

get-put_owner_example :
    ((Mem.get 50 (codes "<ref_b>") written).1 ≡ some (codes "new", codes "bob"))
    × (Map.get (codes "<ref_b>") store.items ≡ none)
unfolding Map.get new_bounded_mem_store
get-put_owner_example =
    get-put_owner (λ m. m) (codes "<ref_a>" ∷ codes "<ref_b>" ∷ []) 10 11 (codes "new")
      (codes "bob") store written (codes "<ref_b>") 50 in_order (refl, tt) older
      (λ pos. (omega arith, omega arith)) puts

applies :
    Gate.apply 2
      (λ m. m)
      (codes "<ref_a>" ∷ codes "<ref_b>" ∷ [])
      10
      11
      (codes "new")
      (codes "bob")
      store
    ≡ some (written, reffed (codes "<ref_b>") 3)
unfolding Gate.apply Map.get text_eq new_bounded_mem_store Map.retain Map.put Map.remove
applies = refl

apply-get_example :
    ((3 ≤ 2) × (reffed (codes "<ref_b>") 3 ≡ inline (codes "new")) × (written ≡ store))
    ⊎ ((2 < 3)
        × (ref : Text) × (reffed (codes "<ref_b>") 3 ≡ reffed ref 3)
        × ((Mem.get 50 ref written).1 ≡ some (codes "new", codes "bob")))
unfolding Map.get new_bounded_mem_store
apply-get_example =
    apply-get 2 (λ m. m) (codes "<ref_a>" ∷ codes "<ref_b>" ∷ []) 10 11 (codes "new") (codes "bob")
      store written (reffed (codes "<ref_b>") 3) 50 in_order (refl, tt) older
      (λ pos. (omega arith, omega arith)) applies
