-- ===== src/Mcp/Grant/Urls.antt =====
-- internal/mcp/grant.go: the origins, hosts and URLs that a grant names.
use microagency.Base.{
  ℕ, Bool, false, not, Option, none, some, List, [], leb, length, any, all, Text, codes, text_eq,
  is_empty, starts_with, has_byte, contains, split_byte, trim_last, ◌&&◌, ◌||◌, ◌∷◌, ◌++◌, ◌==◌,
  if◌then◌else◌,
}
use microagency.Mcp.Packages.{Packages, Url}
use microagency.Mcp.Grant.{UrlTargetGrant}

-- The characters of a DNS label in lower case.
unfoldable pub is_host_byte : ℕ → Bool
is_host_byte c = (leb b'a' c && leb c b'z') || (leb b'0' c && leb c b'9') || (c == b'-')

-- Whether a text ends in a byte.
unfoldable pub ends_in : ℕ → Text → Bool
ends_in b [] = false
ends_in b (c ∷ []) = c == b
ends_in b (c ∷ (d ∷ s)) = ends_in b (d ∷ s)

unfoldable pub is_dns_label : Text → Bool
unfolding ends_in is_host_byte all starts_with
is_dns_label label =
    not (text_eq label [])
    && leb (length label) 63
    && not (starts_with label (codes "-"))
    && not (ends_in b'-' label)
    && all is_host_byte label

unfoldable pub validate_grant_hostname : Text → Bool
unfolding is_dns_label has_byte split_byte all
validate_grant_hostname host =
    not (text_eq host [])
    && has_byte b'.' host
    && leb (length host) 253
    && all is_dns_label (split_byte b'.' host)

-- The text has one of the escapes of a dot or of a separator.
unfoldable pub has_escaped_separator : Text → Bool
unfolding contains
has_escaped_separator lower =
    contains lower (codes "%2e") || contains lower (codes "%2f") || contains lower (codes "%5c")

-- A path of a URL is the prefix, or stands below it.
unfoldable pub is_below : Text → Text → Bool
unfolding starts_with trim_last
is_below path prefix = text_eq path prefix || starts_with path (trim_last b'/' prefix ++ codes "/")

unfoldable pub find_url_target : List UrlTargetGrant → Text → Option UrlTargetGrant
find_url_target [] id = none
find_url_target (t ∷ ts) id = if text_eq t.id id then some t else find_url_target ts id

module _ (p : Packages) where
  -- `parseGrantOrigin`, with none for its error.
  unfoldable pub origin_of : Url → Option Text
  unfolding validate_grant_hostname trim_last
  origin_of u =
      let host = p.lower (trim_last b'.' u.hostname) in
      let port = if text_eq u.port [] then codes "443" else u.port in
      if not (text_eq u.scheme (codes "https"))
        || text_eq u.host []
        || u.has_user
        || not (text_eq u.path [])
        || not (text_eq u.raw_query [])
        || not (text_eq u.fragment [])
      then none
      else if p.is_ip u.hostname
      then none
      else if validate_grant_hostname host
      then some (codes "https://" ++ p.join_host_port host port)
      else none

  unfoldable pub parse_grant_origin : Text → Option Text
  unfolding origin_of
  parse_grant_origin raw = elim (p.parse_url raw) [ none ↦ none | some u ↦ origin_of u ]

  unfoldable pub looks_like_url : Text → Bool
  looks_like_url value = elim (p.parse_url value) [
    | none ↦ false
    | some u ↦ not (text_eq u.scheme []) && not (text_eq u.host [])
  ]

  -- An absolute HTTPS URL without credentials and fragment, to a name.
  unfoldable pub is_absolute : Url → Bool
  is_absolute u =
      text_eq u.scheme (codes "https")
      && not (text_eq u.host [])
      && not u.has_user
      && text_eq u.fragment []
      && not (p.is_ip u.hostname)

  unfoldable pub is_normal_path : Url → Bool
  unfolding has_escaped_separator contains
  is_normal_path u =
      text_eq u.raw_path []
      && not (has_escaped_separator (p.lower u.escaped_path))
      && text_eq (p.clean_path u.path) u.path
      && not (contains u.path (codes "//"))

  -- The error of an origin of the target leaves the empty text.
  unfoldable pub is_origin : Text → Text → Bool
  unfolding parse_grant_origin
  is_origin origin raw = elim (parse_grant_origin raw) [
    | none ↦ text_eq origin []
    | some want ↦ text_eq origin want
  ]

  unfoldable pub is_granted : UrlTargetGrant → Url → Text → Bool
  unfolding is_origin is_below any
  is_granted target u origin =
      any (is_origin origin) target.origins
      && (is_empty target.paths || any (is_below u.escaped_path) target.paths)
      && text_eq u.raw_query (p.encode_query target.query)

  -- `validateGrantedURL`: true if it has no error.
  unfoldable pub validate_granted_url : Text → UrlTargetGrant → Bool
  unfolding is_absolute is_normal_path parse_grant_origin is_granted
  validate_granted_url raw target = elim (p.parse_url raw) [
    | none ↦ false
    | some u ↦
        if is_absolute u && is_normal_path u
        then elim (parse_grant_origin (u.scheme ++ (codes "://" ++ u.host))) [
          | none ↦ false
          | some origin ↦ is_granted target u origin
        ]
        else false
  ]
