-- ===== src/Optoken.antt =====
-- internal/optoken/optoken.go: the named operator tokens. `File` is what the store's path holds;
-- the hash in hexadecimal is a parameter, a minted secret, the time and the success of the write
-- are arguments. Times are nanoseconds, and 0 stands before every time.
pub mod Tokens
pub mod Lifecycle
use microagency.Base.{
  ℕ, Bool, true, false, not, Option, none, some, List, [], ltb, leb, is_some, length, all, Text,
  codes, text_eq, has_byte, ◌*◌, ◌/◌, ◌&&◌, ◌||◌, ◌∷◌, ◌++◌, if◌then◌else◌,
}

pub data Role : Type 0 where
  admin auditor : Role

pub record Token : Type 0 where
  pub name : Text
  pub role : Role
  pub sha256 : Text
  pub created : ℕ
  pub expires : Option ℕ

pub data File : Type 0 where
  absent unreadable : File
  tokens : List Token → File

pub data Error : Type 0 where
  invalid_name reserved_name read_failed exists not_found expired mint_failed write_failed : Error

pub data Result {ℓ} (A : Type ℓ) : Type ℓ where
  ok : A → Result A
  err : Error → Result A

-- `Truncate(time.Second)`
abbrev pub truncate_second : ℕ → ℕ
truncate_second now = now / 1000000000 * 1000000000

unfoldable pub is_expired : Token → ℕ → Bool
is_expired t now = elim t.expires [ none ↦ false | some e ↦ ltb e now ]

unfoldable pub is_alnum : ℕ → Bool
is_alnum c = (leb b'a' c && leb c b'z') || (leb b'A' c && leb c b'Z') || (leb b'0' c && leb c b'9')

unfoldable pub name_re : Text → Bool
unfolding is_alnum
name_re [] = false
name_re (c ∷ rest) =
    is_alnum c && (leb (length rest) 63 && all (λ d. is_alnum d || has_byte d (codes "._-")) rest)

unfoldable pub validate_name : Text → Option Error
unfolding name_re
validate_name name =
    if not (name_re name)
    then some invalid_name
    else if text_eq name (codes "legacy-operator-token")
    then some reserved_name
    else none

unfoldable pub read : File → Option (List Token)
read absent = some []
read unreadable = none
read (tokens ts) = some ts

-- The result of a write: the old file, or the new one with what the caller gets.
unfoldable pub write {ℓ} : {A : Type ℓ} → Bool → List Token → A → File → File × Result A
write true ts a f = (tokens ts, ok a)
write false ts a f = (f, err write_failed)

unfoldable pub has_name : Text → List Token → Bool
has_name name [] = false
has_name name (t ∷ ts) = if text_eq t.name name then true else has_name name ts

-- `List`.
unfoldable pub list : File → Result (List Token)
unfolding read
list f = elim (read f) [ none ↦ err read_failed | some ts ↦ ok ts ]

-- The token that `Rotate` leaves: `none` keeps the stored expiry.
unfoldable pub reminted : Text → ℕ → Option ℕ → Token → Token
reminted hash now expires t = record t {
  sha256 = hash;
  created = truncate_second now;
  expires = elim expires [ none ↦ t.expires | some e ↦ some e ];
}

-- The first token of the name is replaced.
unfoldable pub replace_named : Text → Token → List Token → List Token
replace_named name new [] = []
replace_named name new (t ∷ ts) =
    if text_eq t.name name then new ∷ ts else t ∷ replace_named name new ts

unfoldable pub find_named : Text → List Token → Option Token
find_named name [] = none
find_named name (t ∷ ts) = if text_eq t.name name then some t else find_named name ts

unfoldable pub drop_named : Text → List Token → List Token
drop_named name [] = []
drop_named name (t ∷ ts) =
    let rest = drop_named name ts in if text_eq t.name name then rest else t ∷ rest

unfoldable pub revoke : Text → Bool → File → File × Result (Unit {0})
unfolding read drop_named has_name write
revoke name written f = elim (read f) [
  | none ↦ (f, err read_failed)
  | some ts ↦
      if has_name name ts then write written (drop_named name ts) tt f else (f, err not_found)
]

-- The first entry with the hash.
unfoldable pub match_hash : Text → List Token → Option Token
match_hash got [] = none
match_hash got (t ∷ ts) = if text_eq got t.sha256 then some t else match_hash got ts

module _ (hash : Text → Text) where
  unfoldable pub create :
      Text → Role → Option ℕ → Option Text → ℕ → Bool → File → File × Result Text
  unfolding read validate_name has_name write
  create name role expires minted now written f = elim (validate_name name) [
    | some e ↦ (f, err e)
    | none ↦ elim (read f) [
      | none ↦ (f, err read_failed)
      | some ts ↦ if has_name name ts then (f, err exists) else elim minted [
        | none ↦ (f, err mint_failed)
        | some secret ↦
            let new : Token = record {
              name = name;
              role = role;
              sha256 = hash secret;
              created = truncate_second now;
              expires = expires;
            } in
            write written (ts ++ new ∷ []) secret f
      ]
    ]
  ]

  unfoldable pub rotate : Text → Option ℕ → Option Text → ℕ → Bool → File → File × Result Text
  unfolding read is_expired reminted replace_named find_named write
  rotate name expires minted now written f = elim (read f) [
    | none ↦ (f, err read_failed)
    | some ts ↦ elim (find_named name ts) [
      | none ↦ (f, err not_found)
      | some t ↦
          if not (is_some expires) && is_expired t now then (f, err expired) else elim minted [
            | none ↦ (f, err mint_failed)
            | some secret ↦
                write written (replace_named name (reminted (hash secret) now expires t) ts) secret
                  f
          ]
    ]
  ]

  unfoldable pub authenticate : Text → ℕ → File → Option Token
  unfolding read match_hash is_expired
  authenticate presented now f = if text_eq presented [] then none else elim (read f) [
    | none ↦ none
    | some ts ↦ elim (match_hash (hash presented) ts) [
      | none ↦ none
      | some t ↦ if is_expired t now then none else some t
    ]
  ]
