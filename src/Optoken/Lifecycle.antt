-- ===== src/Optoken/Lifecycle.antt =====
-- What a token value is good for after its token is created, rotated or revoked.
use microagency.Base.{
  ℕ, refl, sym, ap, inl, inr, Bool, true, false, not, Option, none, some, List, [], arith,
  Bool-cases, Option-cases, is_some, Text, text_eq, text_eq_refl, text_eq_iff, if_cases,
  option_cases, ◌*◌, ◌/◌, ◌≡◌, ◌≢◌, ◌∙◌, ◌&&◌, ◌∷◌, if◌then◌else◌,
}
use mathlib.Core.List.{Memᴰ}
use microagency.Optoken.{
  Role, Token, File, absent, unreadable, tokens, Result, ok, is_expired, read, write, has_name,
  validate_name, reminted, replace_named, find_named, drop_named, match_hash, revoke, create,
  rotate, authenticate,
}
use microagency.Optoken.Tokens.{
  Distinct, append-Distinct, drop_named-Distinct, replace_named-Distinct, match_hash-append,
  match_hash-drop_named, drop_named-match_hash, find_named-name, match_hash-replace_named,
  replace_named-match_hash,
}

-- The names in the file, if it can be read, stand once each.
unfoldable pub HasDistinct : File → Type 0
HasDistinct absent = Unit
HasDistinct unreadable = Unit
HasDistinct (tokens ts) = Distinct ts

-- No readable token has the hash.
unfoldable pub Unmatched : Text → File → Type 0
Unmatched got absent = Unit
Unmatched got unreadable = Unit
Unmatched got (tokens ts) = match_hash got ts ≡ none

module _ (hash : Text → Text) where
  -- After a token was revoked, a value that authenticates does so under another name.
  pub revoke-authenticate :
      (name presented : Text) (now : ℕ) (written : Bool) (f : File) (t : Token)
      → (revoke name written f).1 ≡ ok tt
      → authenticate hash presented now (revoke name written f).0 ≡ some t
      → t.name ≢ name
  unfolding revoke read write authenticate
  revoke-authenticate name presented now true (tokens ts) t h a =
      ground (arith, text_eq_iff t.name name, match_hash-drop_named (hash presented) name ts t)
  revoke-authenticate name presented now true absent t h a = absurd (cc)
  revoke-authenticate name presented now true unreadable t h a = absurd (cc)
  revoke-authenticate name presented now false (tokens ts) t h a = absurd (ground arith)
  revoke-authenticate name presented now false absent t h a = absurd (cc)
  revoke-authenticate name presented now false unreadable t h a = absurd (cc)

  -- A revocation, whether it succeeds or fails, takes nothing from the others: a value that
  -- authenticated under another name still gets the same token.
  pub revoke-others :
      (name presented : Text) (now : ℕ) (written : Bool) (f : File) (t : Token)
      → authenticate hash presented now f ≡ some t
      → t.name ≢ name
      → authenticate hash presented now (revoke name written f).0 ≡ some t
  unfolding revoke read write authenticate
  revoke-others name presented now true (tokens ts) t a ne =
      ground (arith, text_eq_iff t.name name, drop_named-match_hash (hash presented) name ts t)
  revoke-others name presented now true absent t a ne = a
  revoke-others name presented now true unreadable t a ne = a
  revoke-others name presented now false (tokens ts) t a ne = ground arith
  revoke-others name presented now false absent t a ne = a
  revoke-others name presented now false unreadable t a ne = a

  abbrev pub created_token : Text → Role → Option ℕ → ℕ → Text → Token
  created_token name role expires now secret = record {
    name = name;
    role = role;
    sha256 = hash secret;
    created = now / 1000000000 * 1000000000;
    expires = expires;
  }

  -- A value that `Create` gave out authenticates as the new token until its expiry, if no other
  -- token has its hash.
  pub create-authenticate :
      (name : Text) (role : Role) (expires : Option ℕ) (minted : Option Text) (now : ℕ)
      → (written : Bool) (f : File) (secret : Text) (later : ℕ) → secret ≢ []
      → Unmatched (hash secret) f
      → (create hash name role expires minted now written f).1 ≡ ok secret
      → let new = created_token name role expires now secret in
        authenticate hash secret later (create hash name role expires minted now written f).0
        ≡ (if is_expired new later then none else some new)
  unfolding create read write authenticate Unmatched match_hash
  create-authenticate name role expires minted now written (tokens ts) secret later ne un h =
      ground (
        arith,
        text_eq_iff secret [],
        text_eq_refl (hash secret),
        match_hash-append (hash secret) ts (created_token name role expires now secret),
      )
  create-authenticate name role expires minted now written absent secret later ne un h =
      ground (arith, text_eq_iff secret [], text_eq_refl (hash secret))
  create-authenticate name role expires minted now written unreadable secret later ne un h =
      absurd (ground arith)

  -- A creation that gave out a value answers every value with another hash as before.
  pub create-others :
      (name : Text) (role : Role) (expires : Option ℕ) (minted : Option Text) (now : ℕ)
      → (written : Bool) (f : File) (secret presented : Text) (later : ℕ)
      → (create hash name role expires minted now written f).1 ≡ ok secret
      → hash presented ≢ hash secret
      → authenticate hash presented later (create hash name role expires minted now written f).0
        ≡ authenticate hash presented later f
  unfolding create read write authenticate match_hash
  create-others name role expires minted now written (tokens ts) secret presented later h other =
      ground (
        arith,
        text_eq_iff (hash presented) (hash secret),
        match_hash-append (hash presented) ts (created_token name role expires now secret),
      )
  create-others name role expires minted now written absent secret presented later h other =
      ground (arith, text_eq_iff (hash presented) (hash secret))
  create-others name role expires minted now written unreadable secret presented later h other =
      absurd (ground arith)

  find_named-Mem :
      (name : Text) (ts : List Token) (old : Token) → find_named name ts ≡ some old → Memᴰ old ts
  unfolding find_named
  find_named-Mem name [] old e = absurd (cc)
  find_named-Mem name (t ∷ ts) old e = elim (Bool-cases (text_eq t.name name)) [
    | inl y ↦ Memᴰ.head (ground (arith, y))
    | inr n ↦ Memᴰ.tail (find_named-Mem name ts old (ground (arith, n)))
  ]

  reminted-fields :
      (digest name : Text) (now : ℕ) (expires : Option ℕ) (old : Token)
      → old.name ≡ name
      → record {
        name = name;
        role = old.role;
        sha256 = digest;
        created = now / 1000000000 * 1000000000;
        expires = if is_some expires then expires else old.expires;
      }
        ≡ reminted digest now expires old
  unfolding reminted
  reminted-fields digest name now none old e = rw (sym e) refl
  reminted-fields digest name now (some t) old e = rw (sym e) refl

  rotated :
      (name : Text) (expires : Option ℕ) (minted : Option Text) (now : ℕ) (written : Bool)
      (ts : List Token)
      → (secret : Text) (old : Token) → find_named name ts ≡ some old
      → (rotate hash name expires minted now written (tokens ts)).1 ≡ ok secret
      → (rotate hash name expires minted now written (tokens ts)).0
        ≡ tokens (replace_named name (reminted (hash secret) now expires old) ts)
  unfolding rotate read write
  rotated name expires minted now true ts secret old e h = ground arith
  rotated name expires minted now false ts secret old e h = absurd (ground arith)

  -- After a rotation that gave out a new value, with every name standing once, a value with another
  -- hash never authenticates under the name.
  pub rotate-old :
      (name : Text) (expires : Option ℕ) (minted : Option Text) (now : ℕ) (written : Bool)
      (f : File)
      → (secret presented : Text) (later : ℕ) (t : Token) → HasDistinct f
      → (rotate hash name expires minted now written f).1 ≡ ok secret
      → hash presented ≢ hash secret
      → authenticate hash presented later (rotate hash name expires minted now written f).0 ≡ some t
      → t.name ≢ name
  unfolding rotate read authenticate HasDistinct
  rotate-old name expires minted now written (tokens ts) secret presented later t d h other a =
      elim (Option-cases (find_named name ts)) [
        | inl e ↦ absurd (ground arith)
        | inr (old, e) ↦
            let new = reminted (hash secret) now expires old in
            let same = rotated name expires minted now written ts secret old e h in
            let after : authenticate hash presented later (tokens (replace_named name new ts))
                ≡ some t =
              ap (authenticate hash presented later) (sym same) ∙ a in
            unfold authenticate read in
            ground (
              arith,
              text_eq_iff (hash presented) (hash secret),
              text_eq_iff t.name name,
              match_hash-replace_named (hash presented) name new ts t d,
            )
      ]
  rotate-old name expires minted now written absent secret presented later t d h other a =
      absurd (unfold find_named in ground arith)
  rotate-old name expires minted now written unreadable secret presented later t d h other a =
      absurd (ground arith)

  -- The value that a rotation gave out authenticates, if no token had its hash: the token of the name
  -- that was in the file keeps its role, has the new value's hash and the second of the rotation, and
  -- expires at the time that was asked for, or else when it did before; until then it authenticates.
  pub rotate-authenticate :
      (name : Text) (expires : Option ℕ) (minted : Option Text) (now : ℕ) (written : Bool)
      (ts : List Token)
      → (secret : Text) (later : ℕ) → secret ≢ []
      → Unmatched (hash secret) (tokens ts)
      → (rotate hash name expires minted now written (tokens ts)).1 ≡ ok secret
      → (old : Token) × Memᴰ old ts
        × (old.name ≡ name)
        × (let new : Token = record {
          name = name;
          role = old.role;
          sha256 = hash secret;
          created = now / 1000000000 * 1000000000;
          expires = if is_some expires then expires else old.expires;
        } in
            authenticate hash secret later
              (rotate hash name expires minted now written (tokens ts)).0
            ≡ (if is_expired new later then none else some new))
  unfolding rotate read authenticate Unmatched
  rotate-authenticate name expires minted now written ts secret later ne un h =
      elim (Option-cases (find_named name ts)) [
        | inl e ↦ absurd (ground arith)
        | inr (old, e) ↦
            let new = reminted (hash secret) now expires old in
            let n = find_named-name name ts old e in
            (
              old,
              find_named-Mem name ts old e,
              n,
              rw (reminted-fields (hash secret) name now expires old n) (
                  rw (rotated name expires minted now written ts secret old e h) (
                    unfold authenticate read in
                    ground (
                      arith,
                      text_eq_iff secret [],
                      replace_named-match_hash name new old ts e un,
                    ))),
            )
      ]

-- The three changes of the file.
pub data Change : Type 0 where
  creates : Text → Role → Option ℕ → Option Text → ℕ → Bool → Change
  rotates : Text → Option ℕ → Option Text → ℕ → Bool → Change
  revokes : Text → Bool → Change

unfoldable pub apply : (Text → Text) → Change → File → File
unfolding create rotate revoke
apply hash (creates name role expires minted now written) f =
    (create hash name role expires minted now written f).0
apply hash (rotates name expires minted now written) f =
    (rotate hash name expires minted now written f).0
apply hash (revokes name written) f = (revoke name written f).0

write-HasDistinct {ℓ} :
    {A : Type ℓ} (written : Bool) (ts : List Token) (a : A) (f : File)
    → Distinct ts
    → HasDistinct f
    → HasDistinct (write written ts a f).0
unfolding write HasDistinct
write-HasDistinct true ts a f d k = d
write-HasDistinct false ts a f d k = k

readable-Distinct : (f : File) (ts : List Token) → read f ≡ some ts → HasDistinct f → Distinct ts
unfolding read HasDistinct
readable-Distinct absent ts e d = unfold has_name in ground arith
readable-Distinct unreadable ts e d = absurd (cc)
readable-Distinct (tokens us) ts e d = ground arith

-- Every change keeps each name standing once, whether it succeeds or fails.
pub apply-HasDistinct :
    (hash : Text → Text) (change : Change) (f : File)
    → HasDistinct f
    → HasDistinct (apply hash change f)
unfolding apply create rotate revoke
apply-HasDistinct hash (creates name role expires minted now written) f d =
    option_cases (λ (r : File × Result Text). HasDistinct r.0) (validate_name name) _ _
      (λ valid.
        option_cases (λ (r : File × Result Text). HasDistinct r.0) (read f) _ _ (λ _. d)
          λ ts e.
            if_cases (λ (r : File × Result Text). HasDistinct r.0) (has_name name ts) _ _ (λ _. d)
              λ unused.
                option_cases (λ (r : File × Result Text). HasDistinct r.0) minted _ _ (λ _. d)
                  λ secret _.
                    write-HasDistinct written _ secret f
                      (append-Distinct ts _ unused (readable-Distinct f ts e d)) d)
      λ reason _. d
apply-HasDistinct hash (rotates name expires minted now written) f d =
    option_cases (λ (r : File × Result Text). HasDistinct r.0) (read f) _ _ (λ _. d)
      λ ts e.
        option_cases (λ (r : File × Result Text). HasDistinct r.0) (find_named name ts) _ _ (λ _. d)
          λ t g.
            if_cases (λ (r : File × Result Text). HasDistinct r.0)
              (not (is_some expires) && is_expired t now) _ _ (λ _. d)
              λ _.
                option_cases (λ (r : File × Result Text). HasDistinct r.0) minted _ _ (λ _. d)
                  λ secret _.
                    write-HasDistinct written
                      (replace_named name (reminted (hash secret) now expires t) ts) secret f
                      (replace_named-Distinct name (reminted (hash secret) now expires t) ts
                        (find_named-name name ts t g) (readable-Distinct f ts e d))
                      d
apply-HasDistinct hash (revokes name written) f d =
    option_cases (λ (r : File × Result (Unit {0})). HasDistinct r.0) (read f) _ _ (λ _. d)
      λ ts e.
        if_cases (λ (r : File × Result (Unit {0})). HasDistinct r.0) (has_name name ts) _ _
          (λ _.
            write-HasDistinct written (drop_named name ts) tt f
              (drop_named-Distinct name ts (readable-Distinct f ts e d)) d)
          (λ _. d)
