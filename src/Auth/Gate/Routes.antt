-- ===== src/Auth/Gate/Routes.antt =====
-- The allowlist of the gate of src/server/auth.rs.
use gps_trips.Prelude.{
  ℕ, ◌≡◌, ◌≢◌, ◌↔◌, refl, sym, subst, Bool, true, false, not, ◌||◌, List, [], ◌∷◌, ◌++◌, some,
  codes, text_eq, text_eq→eq, Option-cases, inl, inr, All, ◌⊎◌,
}
use gps_trips.Auth.Types.{Method}
use gps_trips.Auth.Gate.{is_public, is_public_page, is_trip_id}
use gps_trips.Text.{is_empty, contains, starts_with, strip_prefix, strip_prefix_joins}
use gps_trips.Text.Parts.{not_contains, contains_not}

-- A page that loads without a session: the bundle, the front door and the bookmarks of old.
pub data PublicPage : List ℕ → Type 0 where
  app : PublicPage (codes "/app")
  root : PublicPage (codes "/")
  import_page : PublicPage (codes "/import")
  komoot_sync : PublicPage (codes "/komoot/sync")
  below_app : (rest : List ℕ) → PublicPage (codes "/app/" ++ rest)
  trip : (id : List ℕ) → id ≢ [] → All (λ c. c ≢ b'/') id → PublicPage (codes "/trips/" ++ id)

pub data PublicRoute : Method → List ℕ → Type 0 where
  sign_in : PublicRoute Method.post (codes "/api/session")
  read : (path : List ℕ) → PublicPage path → PublicRoute Method.get path
  ask : (path : List ℕ) → PublicPage path → PublicRoute Method.head path

or_cases : (a b : Bool) → (a || b) ≡ true → (a ≡ true) ⊎ (b ≡ true)
or_cases true b h = inl refl
or_cases false b h = inr h

or_right : (a b : Bool) → b ≡ true → (a || b) ≡ true
or_right true b h = refl
or_right false b h = h

not-true : (b : Bool) → not b ≡ true → b ≡ false
not-true true h = cc
not-true false h = refl

named : (path name : List ℕ) → PublicPage name → text_eq path name ≡ true → PublicPage path
named path name p h = subst PublicPage (sym (text_eq→eq path name h)) p

starts_app : (path : List ℕ) → starts_with (codes "/app/") path ≡ true → PublicPage path
unfolding starts_with
starts_app path h = elim (Option-cases (strip_prefix (codes "/app/") path)) [
  | inl e ↦ let bad : false ≡ true = rw (starts_with, e) at h in cc
  | inr (rest, e) ↦
      subst PublicPage (sym (strip_prefix_joins (codes "/app/") path rest e)) (below_app rest)
]

valid_id : (id : List ℕ) → is_trip_id (some id) ≡ true → (id ≢ []) × All (λ c. c ≢ b'/') id
unfolding is_empty
valid_id [] h = cc
valid_id (c ∷ id) h = (λ e. cc, not_contains b'/' (c ∷ id) (not-true (contains b'/' (c ∷ id)) h))

trip_id :
    (path : List ℕ) → is_trip_id (strip_prefix (codes "/trips/") path) ≡ true → PublicPage path
trip_id path h = elim (Option-cases (strip_prefix (codes "/trips/") path)) [
  | inl e ↦ let bad : false ≡ true = rw e at h in cc
  | inr (id, e) ↦
      let v = valid_id id (rw e at h) in
      subst PublicPage (sym (strip_prefix_joins (codes "/trips/") path id e)) (trip id v.0 v.1)
]

public_page : (path : List ℕ) → is_public_page path ≡ true → PublicPage path
public_page path h = elim (or_cases _ _ h) [
  | inr trip_path ↦ trip_id path trip_path
  | inl h ↦ elim (or_cases _ _ h) [
    | inr below ↦ starts_app path below
    | inl h ↦ elim (or_cases _ _ h) [
      | inr e ↦ named path (codes "/komoot/sync") komoot_sync e
      | inl h ↦ elim (or_cases _ _ h) [
        | inr e ↦ named path (codes "/import") import_page e
        | inl h ↦ elim (or_cases _ _ h) [
          | inr e ↦ named path (codes "/") root e
          | inl e ↦ named path (codes "/app") app e
        ]
      ]
    ]
  ]
]

page_public : (path : List ℕ) → PublicPage path → is_public_page path ≡ true
unfolding starts_with is_empty
page_public path app = refl
page_public path root = refl
page_public path import_page = refl
page_public path komoot_sync = refl
page_public path (below_app rest) = refl
page_public path (trip [] some_id one_part) = absurd (some_id refl)
page_public path (trip (c ∷ id) some_id one_part) = rw (contains_not b'/' (c ∷ id) one_part) refl

route_public :
    (method : Method) (path : List ℕ) → PublicRoute method path → is_public method path ≡ true
unfolding is_public
route_public method path sign_in = refl
route_public method path (read page p) = page_public page p
route_public method path (ask page p) = page_public page p

-- The allowlist is a sign-in, a page of the bundle, the front door or a bookmark of old.
pub is_public_iff :
    (method : Method) (path : List ℕ) → (is_public method path ≡ true) ↔ PublicRoute method path
unfolding is_public
is_public_iff Method.post path = (
  λ h. subst (PublicRoute Method.post) (sym (text_eq→eq path (codes "/api/session") h)) sign_in,
  route_public Method.post path,
)
is_public_iff Method.get path = (λ h. read path (public_page path h), route_public Method.get path)
is_public_iff Method.head path = (λ h. ask path (public_page path h), route_public Method.head path)
is_public_iff (Method.other name) path = (λ h. cc, route_public (Method.other name) path)
