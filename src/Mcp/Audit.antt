-- ===== src/Mcp/Audit.antt =====
-- internal/mcp/auditlog.go: the log of runs, a chain of signed lines whose head is anchored outside of it.
-- `Keys` holds SHA-256 in hex, the JSON of an entry, the size of a line of the file, and the keys of the
-- log. A line that is no JSON of an entry is `garbage`; `torn` is what a short write leaves, without the
-- end of its line, and is no JSON either.
pub mod Chain
pub mod Heads
pub mod Restart
pub mod Tampered
pub mod Appends
pub mod Intact
pub mod Visible
use microagency.Base.{
  ℕ, Bool, true, false, not, Option, none, some, List, [], ltb, leb, Text, codes, text_eq, is_empty,
  ◌+◌, ◌-◌, ◌&&◌, ◌||◌, ◌∷◌, ◌++◌, if◌then◌else◌,
}

pub record AuditLine (R : Type 0) : Type 0 where
  pub run_id : Text
  pub entry : R
  pub prev : Text
  pub hash : Text
  pub sig : Text

pub record Keys (R : Type 0) : Type 0 where
  pub digest : Text → Text
  pub canonical : Text → R → Text
  pub line_size : AuditLine R → ℕ
  pub sign : Option (Text → Option Text)
  pub encode_hex : Text → Text
  pub decode_hex : Text → Option Text
  pub verify : Option (Text → Text → Bool)

pub data FileLine (R : Type 0) : Type 0 where
  line : AuditLine R → FileLine R
  garbage torn : FileLine R

-- How a write ends: with the line, with nothing, or with a part of it. A file that cannot be opened
-- is not touched either.
pub data Written : Type 0 where
  whole untouched partial : Written

pub record AuditAnchor : Type 0 where
  pub chained : ℕ
  pub head : Text

-- The fields of the server that the log uses.
pub record AuditState : Type 0 where
  pub audit_hash : Text
  pub audit_chained : ℕ
  pub audit_anchored_at : ℕ

pub record AuditVerification : Type 0 where
  pub lines : ℕ
  pub chained : ℕ
  pub signed : ℕ
  pub intact : Bool
  pub anchored : Bool
  pub break_at : ℕ
  pub detail : Text

-- Where the walk of `VerifyAuditLog` stands.
pub record AuditWalk : Type 0 where
  pub v : AuditVerification
  pub prev : Text
  pub seen_chained : Bool
  pub seen_signed : Bool

abbrev pub audit_anchor_every : ℕ
audit_anchor_every = 64

abbrev pub walk_start : AuditWalk
walk_start = record {
  v = record {
    lines = 0;
    chained = 0;
    signed = 0;
    intact = true;
    anchored = false;
    break_at = 0;
    detail = [];
  };
  prev = [];
  seen_chained = false;
  seen_signed = false;
}

unfoldable pub fail : Text → AuditWalk → AuditWalk
fail why w = record w { v = record w.v { intact = false; break_at = w.v.lines; detail = why } }

module _ {R : Type 0} where
  -- One line of `loadAudit`: the hash of the last chained line, and how many there are.
  unfoldable pub load_line : AuditState → FileLine R → AuditState
  load_line s garbage = s
  load_line s torn = s
  load_line s (line l) =
      if is_empty l.run_id || is_empty l.hash
      then s
      else record s { audit_hash = l.hash; audit_chained = s.audit_chained + 1 }

  unfoldable pub load_lines : AuditState → List (FileLine R) → AuditState
  unfolding load_line
  load_lines s [] = s
  load_lines s (l ∷ file) = load_lines (load_line s l) file

  -- A line after a torn one continues it.
  abbrev pub merged : FileLine R → FileLine R
  merged (line l) = garbage
  merged garbage = garbage
  merged torn = torn

  abbrev pub after : FileLine R → FileLine R → List (FileLine R)
  after torn l = merged l ∷ []
  after (line k) l = line k ∷ l ∷ []
  after garbage l = garbage ∷ l ∷ []

  -- The bytes of a line at the end of the file.
  unfoldable pub append_bytes : FileLine R → List (FileLine R) → List (FileLine R)
  append_bytes l [] = l ∷ []
  append_bytes l (x ∷ []) = after x l
  append_bytes l (x ∷ y ∷ ys) = x ∷ append_bytes l (y ∷ ys)

module _ {R : Type 0} (k : Keys R) where
  -- The scanner's buffer, 16 MiB, does not hold the line.
  unfoldable pub is_long : FileLine R → Bool
  is_long (line l) = leb 16777216 (k.line_size l)
  is_long garbage = false
  is_long torn = false

  -- The lines that the scanner gives, up to one that is too long.
  unfoldable pub scanned : List (FileLine R) → List (FileLine R)
  unfolding is_long
  scanned [] = []
  scanned (l ∷ file) = let rest = scanned file in if is_long l then [] else l ∷ rest

  -- `sc.Err()`
  unfoldable pub scan_failed : List (FileLine R) → Bool
  unfolding is_long
  scan_failed [] = false
  scan_failed (l ∷ file) = is_long l || scan_failed file

  -- `loadAudit` on a file, if there is one and it can be opened.
  unfoldable pub load_audit : Bool → List (FileLine R) → AuditState
  unfolding load_lines scanned
  load_audit opened file =
      let s : AuditState = record { audit_hash = []; audit_chained = 0; audit_anchored_at = 0 } in
      let read = load_lines s (scanned file) in
      if opened then record read { audit_anchored_at = read.audit_chained } else s

  unfoldable pub chain_hash : Text → Text → R → Text
  chain_hash prev run_id entry = k.digest (prev ++ 0 ∷ k.canonical run_id entry)

  -- The signature of a hash in hex, empty without a signer or if it fails.
  unfoldable pub sign_line : Text → Text
  sign_line hash = elim k.sign [
    | none ↦ []
    | some sign ↦ elim (sign hash) [ none ↦ [] | some sig ↦ k.encode_hex sig ]
  ]

  unfoldable pub next_audit_line : AuditState → Text → R → AuditLine R
  unfolding chain_hash sign_line
  next_audit_line s id entry =
      let hash = chain_hash s.audit_hash id entry in
      record { run_id = id; entry = entry; prev = s.audit_hash; hash = hash; sig = sign_line hash }

  -- `secrets` says that there is a secret store.
  unfoldable pub write_audit_line :
      Bool
      → Written
      → Text
      → R
      → AuditState
      → List (FileLine R)
      → (AuditState × List (FileLine R)) × Option AuditAnchor
  unfolding next_audit_line append_bytes
  write_audit_line secrets untouched id entry s file = ((s, file), none)
  write_audit_line secrets partial id entry s file = ((s, append_bytes torn file), none)
  write_audit_line secrets whole id entry s file =
      let l = next_audit_line s id entry in
      let chained = s.audit_chained + 1 in
      let written = append_bytes (line l) file in
      if secrets && leb audit_anchor_every (chained - s.audit_anchored_at)
      then (
        (
          record { audit_hash = l.hash; audit_chained = chained; audit_anchored_at = chained },
          written,
        ),
        some (record { chained = chained; head = l.hash }),
      )
      else ((record s { audit_hash = l.hash; audit_chained = chained }, written), none)

  unfoldable pub accepts : Text → Text → Bool
  accepts hash sig = elim k.verify [
    | none ↦ true
    | some verify ↦ elim (k.decode_hex sig) [ none ↦ false | some raw ↦ verify hash raw ]
  ]

  -- The signature of a chained line.
  unfoldable pub check_signature : AuditLine R → AuditWalk → AuditWalk
  unfolding accepts fail
  check_signature l w =
      if not (is_empty l.sig)
      then (if accepts l.hash l.sig
          then record w {
            v = record w.v { signed = w.v.signed + 1 };
            prev = l.hash;
            seen_signed = true;
          }
          else fail (codes "invalid signature (forged or edited)")
              (record w { v = record w.v { signed = w.v.signed + 1 } }))
      else if w.seen_signed
      then fail (codes "unsigned line after signed history (signature stripped or forged)") w
      else record w { prev = l.hash }

  -- A chained line.
  unfoldable pub check_chained : AuditLine R → AuditWalk → AuditWalk
  unfolding check_signature chain_hash fail
  check_chained l w =
      if not (text_eq l.prev w.prev)
      then fail (codes "chain break") w
      else if not (text_eq (chain_hash l.prev l.run_id l.entry) l.hash)
      then fail (codes "record does not match its hash (edited in place)") w
      else check_signature l w

  -- One turn of the loop.
  unfoldable pub check_audit_line : AuditWalk → FileLine R → AuditWalk
  unfolding check_chained fail
  check_audit_line w garbage =
      fail (codes "malformed line") (record w { v = record w.v { lines = w.v.lines + 1 } })
  check_audit_line w torn =
      fail (codes "malformed line") (record w { v = record w.v { lines = w.v.lines + 1 } })
  check_audit_line w (line l) =
      let here = record w { v = record w.v { lines = w.v.lines + 1 } } in
      if is_empty l.run_id
      then fail (codes "malformed line") here
      else if is_empty l.hash
      then (if w.seen_chained
          then fail (codes "unchained line after chained history (inserted or forged)") here
          else here)
      else check_chained l (record w {
        v = record w.v { lines = w.v.lines + 1; chained = w.v.chained + 1 };
        seen_chained = true;
      })

  unfoldable pub walk_audit : AuditWalk → List (FileLine R) → AuditWalk
  unfolding check_audit_line
  walk_audit w [] = w
  walk_audit w (l ∷ file) =
      let rest = walk_audit (check_audit_line w l) file in
      if (check_audit_line w l).v.intact then rest else check_audit_line w l

  -- The verification, and whether an error came with it. An absent file is intact.
  unfoldable pub verify_audit_log : Bool → Option (List (FileLine R)) → AuditVerification × Bool
  unfolding walk_audit scanned scan_failed
  verify_audit_log opened none = (walk_start.v, false)
  verify_audit_log opened (some file) =
      let w = walk_audit walk_start (scanned file) in
      if not opened then (walk_start.v, true) else (w.v, w.v.intact && scan_failed file)

  -- The log against the anchor that was loaded.
  unfoldable pub verify_audit :
      Bool → Option (List (FileLine R)) → Option AuditAnchor → AuditVerification × Bool
  unfolding verify_audit_log
  verify_audit opened file anchor =
      let (v, failed) = verify_audit_log opened file in
      if failed || not v.intact then (v, failed) else elim anchor [
        | none ↦ (v, false)
        | some a ↦
            if ltb v.chained a.chained
            then (
              record v {
                intact = false;
                break_at = v.chained + 1;
                detail = codes "tail truncated";
              },
              false,
            )
            else (record v { anchored = true }, false)
      ]
