-- ===== src/Auth/Runs/Gated.antt =====
-- Concrete requests to the gate of src/server/auth.rs.
use gps_trips.Text.{split}
use gps_trips.Auth.Token.{verify}
use gps_trips.Auth.Crates.{Representable}
use gps_trips.Prelude.{
  inl, inr, some, ℕ, suc, ◌+◌, ◌*◌, ◌≡◌, ◌⊎◌, refl, false, List, [], ◌∷◌, none, arith,
  if◌then◌else◌, codes, text_eq,
}
use gps_trips.Prelude.Int.{ℤ, pos, ◌+ℤ◌, ◌≤ℤ◌}
use gps_trips.Auth.Crates.{secs}
use gps_trips.Auth.Token.{Principal, owner, session_ttl, session_refresh_after}
use gps_trips.Auth.Headers.{
  cookie, resolve, cookie_token, bearer_token, get, cookie_pair, cleared_cookie, HeaderMap,
}
use gps_trips.Auth.Headers.Cookie.{resolve-cookie_pair}
use gps_trips.Auth.Types.{
  Method, Request, Response, handled, unauthorized, Caller, Lookup, found, missing,
}
use gps_trips.Auth.Gate.{
  gate, token_under, path_prefix, with_principal, naming, error_response, sets_session_cookie,
  sets_session,
}
use gps_trips.Auth.Gate.Safety.{gate-runs, Presented, Authorised}
use gps_trips.Auth.Gate.Routes.{PublicRoute}
use gps_trips.Auth.Gate.Strangers.{gate-PublicRoute}
use gps_trips.Auth.Gate.Renewal.{gate-renews}
use gps_trips.Auth.Handlers.{handle_logout, gate-handle_logout}
use gps_trips.Text.{strip_prefix}
use gps_trips.Auth.Runs.{
  stand_ins, stand_ins_laws, archive, noon, end_of_session, session_fits, noon_early, token,
}

-- A router that counts the requests it runs, and a database with one share.
abbrev router : Request → ℕ → Response ℕ × ℕ
router request count = (record { body = handled count; set_cookie = []; caller = none }, suc count)

abbrev sign_out : Request → ℕ → Response ℕ × ℕ
sign_out request count = (handle_logout 204, count)

abbrev shares : ℕ → List ℕ → ℤ → Lookup
shares count link now =
    if text_eq link (codes "abc") then found (record { id = pos 7; label = none }) else missing

abbrev headers : HeaderMap
headers = (codes "cookie", cookie_pair token) ∷ []

-- Asked for with the session's cookie, and without a credential.
abbrev photos : Request
photos = record {
  method = Method.get;
  path = codes "/trips/7/photos";
  headers = headers;
  principal = none;
}

abbrev stranger : Request
stranger = record {
  method = Method.get;
  path = codes "/trips/7/photos";
  headers = [];
  principal = none;
}

gate-runs_example :
    ((gate stand_ins archive shares router noon photos 3).1 ≡ 3)
    ⊎ ((p : Principal) × Authorised stand_ins archive shares noon photos 3 p
        × ((gate stand_ins archive shares router noon photos 3).1
            ≡ (router (with_principal photos p) 3).1))
gate-runs_example = gate-runs stand_ins archive shares router noon photos 3

no_link :
    (request : Request)
    → strip_prefix (codes "/s/") request.path ≡ none
    → token_under request.path path_prefix ≡ none
unfolding token_under
no_link request h = rw h refl

on_trip : strip_prefix (codes "/s/") (codes "/trips/7/photos") ≡ none
unfolding strip_prefix
on_trip = refl

-- There is no header to carry a token.
no_token :
    (token : List ℕ) → Presented stand_ins [] token → verify stand_ins archive token noon ≡ none
unfolding cookie_token bearer_token get
no_token sent (inl h) = cc
no_token sent (inr h) = cc

gate-PublicRoute_example :
    (PublicRoute Method.get (codes "/trips/7/photos")
      × ((gate stand_ins archive shares router noon stranger 3).1
          ≡ (router (with_principal stranger Principal.anonymous) 3).1))
    ⊎ ((¬ PublicRoute Method.get (codes "/trips/7/photos"))
        × (gate stand_ins archive shares router noon stranger 3
            ≡ (naming (error_response unauthorized) Caller.anonymous, 3)))
gate-PublicRoute_example =
    gate-PublicRoute stand_ins archive shares router noon stranger 3 (no_link stranger on_trip)
      no_token

gate-handle_logout_example :
    (gate stand_ins archive shares sign_out noon photos 3).0.set_cookie ≡ cleared_cookie ∷ []
gate-handle_logout_example =
    let (e, resolved, _) =
      resolve-cookie_pair stand_ins stand_ins_laws archive noon noon session_fits noon_early in
    gate-handle_logout stand_ins archive shares 204 noon photos 3
      (record { principal = owner; expires_at = e }) cookie (no_link photos on_trip) resolved

-- Two months on, a month before the session ends.
abbrev later : ℤ
later = pos (secs (43200 + 60 * 86400))

later_early : later +ℤ pos (secs 1) ≤ℤ end_of_session
unfolding ◌+ℤ◌
later_early = omega arith

later_fits : Representable (later +ℤ pos session_ttl)
unfolding ◌+ℤ◌
later_fits = (omega arith, omega arith)

half_gone : end_of_session +ℤ pos 1 ≤ℤ later +ℤ pos session_refresh_after
unfolding ◌+ℤ◌
half_gone = omega arith

-- After the first session's end.
abbrev much_later : ℤ
much_later = pos (secs (43200 + 100 * 86400))

much_later_early : much_later +ℤ pos (secs 1) ≤ℤ later +ℤ pos session_ttl
unfolding ◌+ℤ◌
much_later_early = omega arith

no_cookie : sets_session_cookie (router (with_principal photos Principal.owner) 3).0 ≡ false
unfolding sets_session_cookie sets_session
no_cookie = refl

gate-renews_example :
    (value pair : List ℕ) × (rest : List (List ℕ)) × (e : ℤ) × ((gate stand_ins archive shares
        router later photos 3).0.set_cookie
      ≡ value ∷ [])
    × (split b';' value ≡ pair ∷ rest)
    × (resolve stand_ins archive ((codes "cookie", pair) ∷ []) much_later
        ≡ some (record { principal = Principal.owner; expires_at = e }, cookie))
gate-renews_example =
    gate-renews stand_ins stand_ins_laws archive shares router photos 3 noon later much_later refl
      (no_link photos on_trip) session_fits later_fits later_early half_gone much_later_early
      no_cookie refl
