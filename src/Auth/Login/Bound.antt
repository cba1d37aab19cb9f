-- ===== src/Auth/Login/Bound.antt =====
-- Theorems on the lockout of src/server/auth.rs.
use gps_trips.Prelude.{
  ℕ, suc, ◌+◌, ◌<◌, ◌≤◌, ◌≡◌, refl, ap, true, false, List, [], ◌∷◌, some, arith, leb, All,
  All-weaken, Bool-cases, Option-cases, inl, inr, ◌⊎◌, ◌%◌, ◌^◌,
}
use gps_trips.Prelude.Int.{ℤ, pos, ◌+ℤ◌, ◌-ℤ◌, ◌≤ℤ◌, ltb_ℤ}
use gps_trips.Auth.Crates.{AuthCrates}
use gps_trips.Auth.Lockout.{
  LoginFailures, locked_for, register_failure, reset, login_lockout, unsigned_abs,
}
use gps_trips.Auth.Token.{Auth, password_matches}
use gps_trips.Auth.Login.{LoginOutcome, granted, refused, locked_out, login, logins, with_failures}

-- The counter stays below the limit.
abbrev pub IsValid : Auth → Type 0
IsValid auth = auth.failures.consecutive < 5

-- A login attempt keeps the counter of failures below the limit.
login-IsValid :
    (C : AuthCrates) (auth : Auth) (password : List ℕ) (now : ℤ)
    → IsValid auth
    → IsValid (login C auth password now).1
unfolding login register_failure with_failures reset
login-IsValid C auth password now h = ground arith

locked_for-some :
    (failures : LoginFailures) (now until : ℤ)
    → failures.locked_until ≡ some until
    → ltb_ℤ now until ≡ true
    → locked_for failures now ≡ some (unsigned_abs (until -ℤ now))
unfolding locked_for
locked_for-some failures now until h k = ground (arith, h, k)

-- Before the end of a lockout every attempt, one with the right password too, is answered with
-- the rest of the wait and changes nothing.
login-locked :
    (C : AuthCrates) (auth : Auth) (password : List ℕ) (now until : ℤ)
    → auth.failures.locked_until ≡ some until
    → ltb_ℤ now until ≡ true
    → login C auth password now ≡ (locked_out (unsigned_abs (until -ℤ now)), auth)
unfolding login
login-locked C auth password now until h k =
    rw (login, locked_for-some auth.failures now until h k) refl

-- How many attempts were compared with the password and failed.
unfoldable pub refusals : List LoginOutcome → ℕ
refusals [] = 0
refusals (granted s ∷ outcomes) = refusals outcomes
refusals (refused ∷ outcomes) = suc (refusals outcomes)
refusals (locked_out w ∷ outcomes) = refusals outcomes

-- How many attempts were granted a session.
unfoldable pub grants : List LoginOutcome → ℕ
grants [] = 0
grants (granted s ∷ outcomes) = suc (grants outcomes)
grants (refused ∷ outcomes) = grants outcomes
grants (locked_out w ∷ outcomes) = grants outcomes

-- Before the end of a lockout no attempt, one with the right password neither, is granted a
-- session or compared with the password, and the gate's state stays as it is.
pub logins-locked :
    (C : AuthCrates) (auth : Auth) (until : ℤ) (attempts : List (List ℕ × ℤ))
    → auth.failures.locked_until ≡ some until
    → All (λ a. ltb_ℤ a.1 until ≡ true) attempts
    → (grants (logins C auth attempts).0 ≡ 0)
      × (refusals (logins C auth attempts).0 ≡ 0)
      × ((logins C auth attempts).1 ≡ auth)
unfolding logins refusals grants
logins-locked C auth until [] h k = (refl, refl, refl)
logins-locked C auth until ((password, now) ∷ attempts) h k =
    rw (login-locked C auth password now until h k.0) (logins-locked C auth until attempts h k.1)

register-cases :
    (failures : LoginFailures) (now : ℤ)
    → failures.consecutive < 5
    → ((register_failure failures now
          ≡ record { consecutive = suc failures.consecutive; locked_until = failures.locked_until })
        × (suc failures.consecutive < 5))
      ⊎ (register_failure failures now
          ≡ record { consecutive = 0; locked_until = some (now +ℤ pos login_lockout) })
unfolding register_failure
register-cases failures now v =
    let wrap : (failures.consecutive + 1) % 2 ^ 32 ≡ suc failures.consecutive = omega (arith, v) in
    elim (Bool-cases (leb 5 (suc failures.consecutive))) [
      | inl full ↦ inr (rw (register_failure, wrap, full) refl)
      | inr below ↦ inl (rw (register_failure, wrap, below) refl, ground (arith, below))
    ]

-- What a wrong password comes to.
wrong-cases :
    (C : AuthCrates) (auth : Auth) (password : List ℕ) (now : ℤ)
    → IsValid auth
    → password_matches C auth password ≡ false
    → ((w : ℕ) × (login C auth password now ≡ (locked_out w, auth)))
      ⊎ (login C auth password now ≡ (
        refused,
        with_failures auth (record {
          consecutive = suc auth.failures.consecutive;
          locked_until = auth.failures.locked_until;
        }),
      )
          × (suc auth.failures.consecutive < 5))
      ⊎ (login C auth password now ≡ (
        refused,
        with_failures auth
            (record { consecutive = 0; locked_until = some (now +ℤ pos login_lockout) }),
      ))
unfolding login
wrong-cases C auth password now v h = elim (Option-cases (locked_for auth.failures now)) [
  | inr (w, locked) ↦ inl (w, rw (login, locked) refl)
  | inl unlocked ↦ elim (register-cases auth.failures now v) [
    | inl (e, below) ↦
        inr (inl (rw (login, unlocked) (rw h (ap (λ f. (refused, with_failures auth f)) e)), below))
    | inr e ↦ inr (inr (rw (login, unlocked) (rw h (ap (λ f. (refused, with_failures auth f)) e))))
  ]
]

-- What all attempts of a quarter of an hour have in common that starts at `start`.
abbrev pub InWindow : ℤ → ℤ → Type 0
InWindow start now = (start ≤ℤ now) × (ltb_ℤ now (start +ℤ pos login_lockout) ≡ true)

outlasts :
    (start now t : ℤ) → start ≤ℤ now → InWindow start t → ltb_ℤ t (now +ℤ pos login_lockout) ≡ true
unfolding ◌+ℤ◌
outlasts start now t h w = ground (arith, h, w)

-- However often wrong passwords are tried within a quarter of an hour, at most five of them are
-- compared with the password, those that the counter already holds counted in.
pub guesses-bound :
    (C : AuthCrates) (auth : Auth) (start : ℤ) (attempts : List (List ℕ × ℤ))
    → IsValid auth
    → All (λ a. (password_matches C auth a.0 ≡ false) × InWindow start a.1) attempts
    → auth.failures.consecutive + refusals (logins C auth attempts).0 ≤ 5
unfolding logins refusals with_failures password_matches
guesses-bound C auth start [] v h = omega (arith, v)
guesses-bound C auth start ((password, now) ∷ attempts) v h =
    elim (wrong-cases C auth password now v h.0.0) [
      | inl (w, e) ↦ rw e (guesses-bound C auth start attempts v h.1)
      | inr (inl (e, below)) ↦ rw e (
          omega (
            arith,
            guesses-bound C
                (with_failures auth (record {
                  consecutive = suc auth.failures.consecutive;
                  locked_until = auth.failures.locked_until;
                }))
                start attempts below h.1,
          ))
      | inr (inr e) ↦ rw e (
          let rest =
            logins-locked C
              (with_failures auth
                (record { consecutive = 0; locked_until = some (now +ℤ pos login_lockout) }))
              (now +ℤ pos login_lockout) attempts refl
              (All-weaken (λ a w. outlasts start now a.1 h.0.1.0 w.1) attempts h.1) in
          omega (arith, v, rest.1))
    ]
