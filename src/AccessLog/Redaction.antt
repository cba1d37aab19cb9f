-- ===== src/AccessLog/Redaction.antt =====
-- That the access log, src/server/access_log.rs, writes no token that the gate reads.
use gps_trips.Prelude.{
  ℕ, ◌<◌, ◌≡◌, refl, ap, subst, ◌∙◌, List, [], ◌∷◌, ◌++◌, none, some, some-injective, ◌⊎◌, inl, inr,
  arith, codes, lt→ltb, ◌==◌, length, length-append, Bool-cases, if_true,
}
use gps_trips.Text.{split, cons_head, strip_prefix, strip_prefix_joins}
use gps_trips.Auth.Headers.{and_then_inv}
use gps_trips.Auth.Gate.{path_prefix, page_prefix, token_under, first_part, nonempty}
use gps_trips.AccessLog.{after_token, blanked, redact}

first_part-cons_head :
    (c : ℕ) (parts : List (List ℕ)) → first_part (cons_head c parts) ≡ c ∷ first_part parts
first_part-cons_head c [] = refl
first_part-cons_head c (part ∷ parts) = refl

-- The token and what is behind it.
token-after_token : (rest : List ℕ) → rest ≡ first_part (split b'/' rest) ++ after_token rest
unfolding split after_token
token-after_token [] = refl
token-after_token (c ∷ rest) = elim (Bool-cases (c == b'/')) [
  | inl e ↦ rw e refl
  | inr e ↦
      rw (e, first_part-cons_head c (split b'/' rest)) (ap (λ s. c ∷ s) (token-after_token rest))
]

nonempty_inv : (s token : List ℕ) → nonempty s ≡ some token → (s ≡ token) × (0 < length token)
nonempty_inv [] token h = cc
nonempty_inv (c ∷ s) token h =
    let e = some-injective (c ∷ s) token h in (e, subst (λ t. 0 < length t) e (omega arith))

-- A path with a token under the prefix is blanked.
blanked-token_under :
    (path prefix token : List ℕ)
    → token_under path prefix ≡ some token
    → (behind : List ℕ) × (path ≡ prefix ++ (token ++ behind))
      × (blanked prefix (strip_prefix prefix path) ≡ some (prefix ++ codes "…" ++ behind))
unfolding token_under
blanked-token_under path prefix token h =
    let (rest, stripped, held) = and_then_inv (strip_prefix prefix path) _ token h in
    let (named, some_token) = nonempty_inv (first_part (split b'/' rest)) token held in
    let parts : rest ≡ token ++ after_token rest =
      token-after_token rest ∙ ap (λ t. t ++ after_token rest) named in
    let shorter : length (after_token rest) < length rest =
      omega (arith, some_token, ap length parts, length-append token (after_token rest)) in
    (
      after_token rest,
      strip_prefix_joins prefix path rest stripped ∙ ap (λ r. prefix ++ r) parts,
      ap (blanked prefix) stripped ∙ if_true _ _ (lt→ltb _ _ shorter),
    )

-- A path of the screens is none of the data routes.
page_path :
    (behind : List ℕ)
    → blanked path_prefix (strip_prefix path_prefix (page_prefix ++ behind)) ≡ none
unfolding strip_prefix
page_path behind = refl

redact_data :
    (path line : List ℕ)
    → blanked path_prefix (strip_prefix path_prefix path) ≡ some line
    → redact path ≡ line
unfolding redact
redact_data path line h = rw (redact, h) refl

redact_page :
    (path line : List ℕ)
    → blanked path_prefix (strip_prefix path_prefix path) ≡ none
    → blanked page_prefix (strip_prefix page_prefix path) ≡ some line
    → redact path ≡ line
unfolding redact
redact_page path line h k = rw (redact, h, k) refl

-- Where the gate reads a share's token from a path, the path is the prefix, the token and
-- something behind it, and what is logged is the prefix, an ellipsis and what is behind.
pub redact-token_under :
    (path token : List ℕ) (prefix : List ℕ)
    → (prefix ≡ path_prefix) ⊎ (prefix ≡ page_prefix)
    → token_under path prefix ≡ some token
    → (behind : List ℕ) × (path ≡ prefix ++ (token ++ behind))
      × (redact path ≡ prefix ++ codes "…" ++ behind)
redact-token_under path token prefix (inl e) h =
    let (behind, parts, line) = blanked-token_under path prefix token h in
    let data_line : blanked path_prefix (strip_prefix path_prefix path)
        ≡ some (prefix ++ codes "…" ++ behind) =
      subst (λ p. blanked p (strip_prefix p path) ≡ some (prefix ++ codes "…" ++ behind)) e line in
    (behind, parts, redact_data path _ data_line)
redact-token_under path token prefix (inr e) h =
    let (behind, parts, line) = blanked-token_under path prefix token h in
    let other : blanked path_prefix (strip_prefix path_prefix path) ≡ none =
      ap (λ p. blanked path_prefix (strip_prefix path_prefix p))
        (parts ∙ ap (λ p. p ++ (token ++ behind)) e)
      ∙ page_path (token ++ behind) in
    let page_line : blanked page_prefix (strip_prefix page_prefix path)
        ≡ some (prefix ++ codes "…" ++ behind) =
      subst (λ p. blanked p (strip_prefix p path) ≡ some (prefix ++ codes "…" ++ behind)) e line in
    (behind, parts, redact_page path _ other page_line)
