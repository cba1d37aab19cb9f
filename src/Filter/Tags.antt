-- ===== src/Filter/Tags.antt =====
-- The tags of a filter that src/server/filter.rs parses: normalised names, each of them once.
use gps_trips.Prelude.{
  ℕ, ◌≡◌, ◌≢◌, refl, sym, subst, ◌∙◌, Bool, true, false, ◌||◌, List, [], ◌∷◌, ◌++◌, Option, none,
  some, arith, text_eq, text_eq→eq, text_eq_refl, if◌then◌else◌, Bool-cases, inl, inr, All,
  All-append,
}
use mathlib.Core.Bool.{true≢false}
use gps_trips.Text.{trim, split, is_empty, contains}
use gps_trips.Types.Tag.{
  TagName, name, is_blank, has_spaces, has_comma, normalize_tag_name, any_whitespace,
}
use gps_trips.Filter.{
  Tables, Answer, parsed, has_name, push_new, parse_parts, tags_of, with_name, parsed-injective,
}

-- A name that `normalize_tag_name` makes.
unfoldable pub IsTag : Tables → List ℕ → Type 0
IsTag T s =
    (t : List ℕ) × (is_empty t ≡ false)
    × (any_whitespace t ≡ false)
    × (contains b',' t ≡ false)
    × (s ≡ T.to_lowercase t)

unfoldable pub Distinct : List (List ℕ) → Type 0
Distinct [] = Unit {0}
Distinct (s ∷ tags) = (has_name tags s ≡ false) × Distinct tags

pub neither : (b c : Bool) → (b || c) ≡ false → (b ≡ false) × (c ≡ false)
neither true c h = cc
neither false c h = (refl, h)

unless :
    (b : Bool) (bad m : TagName) (s : List ℕ)
    → bad ≢ name s
    → (if b then bad else m) ≡ name s
    → (b ≡ false) × (m ≡ name s)
unless true bad m s clash h = absurd (clash h)
unless false bad m s clash h = (refl, h)

name-injective : (s t : List ℕ) → name s ≡ name t → s ≡ t
name-injective s t h = cc

normalize_tag_name-IsTag :
    (T : Tables) (raw s : List ℕ) → normalize_tag_name T.to_lowercase raw ≡ name s → IsTag T s
unfolding normalize_tag_name IsTag
normalize_tag_name-IsTag T raw s h =
    let (filled, h1) = unless (is_empty (trim raw)) is_blank _ s (λ e. cc) h in
    let (unspaced, h2) = unless (any_whitespace (trim raw)) has_spaces _ s (λ e. cc) h1 in
    let (whole, h3) = unless (contains b',' (trim raw)) has_comma _ s (λ e. cc) h2 in
    (trim raw, filled, unspaced, whole, sym (name-injective (T.to_lowercase (trim raw)) s h3))

with_name_inv :
    (n : TagName) (f : List ℕ → Answer (List (List ℕ))) (out : List (List ℕ))
    → with_name n f ≡ parsed out
    → (s : List ℕ) × (n ≡ name s) × (f s ≡ parsed out)
with_name_inv (name s) f out h = (s, refl, h)
with_name_inv is_blank f out h = cc
with_name_inv has_spaces f out h = cc
with_name_inv has_comma f out h = cc

text_eq-false : (s t : List ℕ) → text_eq s t ≡ false → text_eq t s ≡ false
text_eq-false s t h = elim (Bool-cases (text_eq t s)) [
  | inr e ↦ e
  | inl e ↦
      let same : text_eq s t ≡ true =
        subst (λ u. text_eq u t ≡ true) (text_eq→eq t s e) (text_eq_refl t) in
      absurd (true≢false (sym same ∙ h))
]

has_name-append :
    (tags : List (List ℕ)) (s t : List ℕ)
    → has_name tags t ≡ false
    → text_eq s t ≡ false
    → has_name (tags ++ s ∷ []) t ≡ false
unfolding has_name
has_name-append [] s t h k = ground (arith, k)
has_name-append (u ∷ tags) s t h k =
    let (first, rest) = neither (text_eq u t) (has_name tags t) h in
    rw first (has_name-append tags s t rest k)

Distinct-append :
    (tags : List (List ℕ)) (s : List ℕ)
    → Distinct tags
    → has_name tags s ≡ false
    → Distinct (tags ++ s ∷ [])
unfolding Distinct has_name
Distinct-append [] s d h = (refl, tt)
Distinct-append (t ∷ tags) s d h =
    let (first, rest) = neither (text_eq t s) (has_name tags s) h in
    (has_name-append tags s t d.0 (text_eq-false t s first), Distinct-append tags s d.1 rest)

push_new_lem :
    (T : Tables) (tags : List (List ℕ)) (s : List ℕ)
    → All (IsTag T) tags
    → Distinct tags
    → IsTag T s
    → All (IsTag T) (push_new tags s) × Distinct (push_new tags s)
push_new_lem T tags s h d k = elim (Bool-cases (has_name tags s)) [
  | inl there ↦ rw there (h, d)
  | inr fresh ↦
      rw fresh (All-append (IsTag T) tags (s ∷ []) h (k, tt), Distinct-append tags s d fresh)
]

module _ (T : Tables) where
  parse_parts_lem :
      (tags parts out : List (List ℕ))
      → All (IsTag T) tags
      → Distinct tags
      → parse_parts T tags parts ≡ parsed out
      → All (IsTag T) out × Distinct out
  unfolding parse_parts
  parse_parts_lem tags [] out h d e =
      subst (λ o. All (IsTag T) o × Distinct o) (parsed-injective tags out e) (h, d)
  parse_parts_lem tags (part ∷ parts) out h d e = elim (Bool-cases (is_empty (trim part))) [
    | inl blank ↦ parse_parts_lem tags parts out h d (rw blank at e)
    | inr filled ↦
        let (s, named, rest) = with_name_inv _ _ out (rw filled at e) in
        let (h', d') = push_new_lem T tags s h d (normalize_tag_name-IsTag T (trim part) s named) in
        parse_parts_lem (push_new tags s) parts out h' d' rest
  ]

  pub tags_of_lem :
      (o : Option (List ℕ)) (out : List (List ℕ))
      → tags_of T o ≡ parsed out
      → All (IsTag T) out × Distinct out
  unfolding Distinct
  tags_of_lem none out e =
      subst (λ o. All (IsTag T) o × Distinct o) (parsed-injective [] out e) (tt, tt)
  tags_of_lem (some raw) out e = parse_parts_lem [] (split b',' raw) out tt tt e
