-- ===== src/Mcp/Packages.antt =====
-- What internal/mcp uses of Go's library: package net/url with the parts of a parsed URL, the tests
-- and normal forms of package strings, path, net and regexp, times, decimal numbers, runes, and digests.
use microagency.Base.{ℕ, Bool, Option, List, Text}
use microagency.Base.Map.{Map}

pub record Url : Type 0 where
  pub scheme : Text
  pub host : Text
  pub hostname : Text
  pub port : Text
  pub has_user : Bool
  pub path : Text
  pub raw_path : Text
  pub escaped_path : Text
  pub raw_query : Text
  pub fragment : Text

-- `pattern_compiles` and `pattern_matches` are about "^(?:" + pattern + ")$"; `parse_time` is for RFC
-- 3339, with 0 for the zero time; `atoi` is none on an error and on a negative number; `sha256` is in
-- hexadecimal; `runes` is none on a text that is not UTF-8; `is_format` is for the tables Bidi_Control,
-- Join_Control and Cf.
pub record Packages : Type 0 where
  pub parse_url : Text → Option Url
  pub is_ip : Text → Bool
  pub lower : Text → Text
  pub trim_space : Text → Text
  pub join_host_port : Text → Text → Text
  pub clean_path : Text → Text
  pub encode_query : Map (List Text) → Text
  pub pattern_compiles : Text → Bool
  pub pattern_matches : Text → Text → Bool
  pub parse_time : Text → Option ℕ
  pub itoa : ℕ → Text
  pub atoi : Text → Option ℕ
  pub sort : List Text → List Text
  pub sha256 : Text → Text
  pub runes : Text → Option (List ℕ)
  pub is_format : ℕ → Bool
  pub equal_fold : Text → Text → Bool
