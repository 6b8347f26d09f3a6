-- ===== src/Prometheus/Labels.antt =====
-- About the escaping of label values in prometheus.py.
use task_platform.Common.{
  ℕ, ◌≡◌, Bool, true, false, not, ◌&&◌, [], ◌∷◌, ◌++◌, arith, ◌==◌, if◌then◌else◌, Text, refl, ap,
  ◌∙◌,
}
use task_platform.Prometheus.{replace, escape}

-- How a reader of the format undoes an escape: `true` after a backslash.
abbrev pub unescape_from : Bool → Text → Text
unescape_from false [] = []
unescape_from true [] = []
unescape_from false (c ∷ t) =
    let escaped = unescape_from true t in
    let plain = unescape_from false t in if c == 92 then escaped else c ∷ plain
unescape_from true (c ∷ t) =
    let plain = unescape_from false t in if c == 110 then 10 ∷ plain else c ∷ plain

-- A value ends at the first quote that no backslash precedes: none stands inside.
abbrev pub stays_inside : Bool → Text → Bool
stays_inside b [] = not b
stays_inside true (c ∷ t) = stays_inside false t
stays_inside false (c ∷ t) =
    let escaped = stays_inside true t in
    let plain = stays_inside false t in
    if c == 92 then escaped else not (c == 34) && (not (c == 10) && plain)

abbrev escaped_char : ℕ → Text
escaped_char c =
    if c == 92
    then 92 ∷ 92 ∷ []
    else if c == 34
    then 92 ∷ 34 ∷ []
    else if c == 10
    then 92 ∷ 110 ∷ []
    else c ∷ []

escape-cons : (c : ℕ) (t : Text) → escape (c ∷ t) ≡ escaped_char c ++ escape t
unfolding escape replace
escape-cons c t = ground arith

unescape-escaped_char :
    (c : ℕ) (t : Text) → unescape_from false (escaped_char c ++ t) ≡ c ∷ unescape_from false t
unescape-escaped_char c t = ground arith

stays_inside-escaped_char :
    (c : ℕ) (t : Text) → stays_inside false (escaped_char c ++ t) ≡ stays_inside false t
stays_inside-escaped_char c t = ground arith

-- An escaped label value holds no line feed and no quote without a backslash before it, does not end
-- inside an escape, and is read back as the value that was escaped.
pub unescape-escape :
    (value : Text)
    → (unescape_from false (escape value) ≡ value) × (stays_inside false (escape value) ≡ true)
unfolding escape replace
unescape-escape [] = (refl, refl)
unescape-escape (c ∷ value) =
    let (back, inside) = unescape-escape value in
    (
      ap (unescape_from false) (escape-cons c value)
          ∙ unescape-escaped_char c (escape value)
          ∙ ap (λ t. c ∷ t) back,
      ap (stays_inside false) (escape-cons c value)
          ∙ stays_inside-escaped_char c (escape value)
          ∙ inside,
    )
