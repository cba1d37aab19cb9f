-- ===== src/AccessLog.antt =====
-- The access log, src/server/access_log.rs.
pub mod Redaction
pub mod Writer
mod Runs
use gps_trips.Prelude.{
  ℕ, ◌+◌, Bool, true, false, not, List, [], ◌∷◌, ◌++◌, Option, none, some, codes, ltb, ◌==◌, length,
  if◌then◌else◌,
}
use gps_trips.Prelude.Int.{ℤ}
use gps_trips.Text.{strip_prefix, starts_with}
use gps_trips.Auth.Types.{Caller}
use gps_trips.Auth.Gate.{path_prefix, page_prefix}

-- `at` is in nanoseconds since the Unix epoch.
pub record AccessRecord : Type 0 where
  pub at : ℤ
  pub method : List ℕ
  pub path : List ℕ
  pub status : ℕ
  pub duration_ms : ℕ
  pub caller : Caller
  pub ip : Option (List ℕ)
  pub user_agent : Option (List ℕ)

abbrev pub bundle_assets_prefix : List ℕ
bundle_assets_prefix = codes "/app/assets/"

unfoldable pub is_bundle_file : AccessRecord → Bool
is_bundle_file entry = starts_with bundle_assets_prefix entry.path

-- What is behind a token: `&rest[rest.find('/')..]`, or nothing.
unfoldable pub after_token : List ℕ → List ℕ
after_token [] = []
after_token (c ∷ rest) = let behind = after_token rest in if c == b'/' then c ∷ rest else behind

-- `none` if the path has no token under the prefix.
abbrev pub blanked : List ℕ → Option (List ℕ) → Option (List ℕ)
blanked prefix none = none
blanked prefix (some rest) =
    if ltb (length (after_token rest)) (length rest)
    then some (prefix ++ codes "…" ++ after_token rest)
    else none

unfoldable pub redact : List ℕ → List ℕ
unfolding after_token
redact path = elim (blanked path_prefix (strip_prefix path_prefix path)) [
  | some line ↦ line
  | none ↦ elim (blanked page_prefix (strip_prefix page_prefix path)) [
    | some line ↦ line
    | none ↦ path
  ]
]
