-- ===== src/Alerts/Changes.antt =====
-- About `AlertTracker.update` of alerts.py.
use task_platform.Common.{
  ◌≡◌, refl, sym, ap, ◌∙◌, inl, inr, Bool, not, ◌&&◌, ◌||◌, List, [], ◌∷◌, map, arith, Bool-cases,
  filter, any, All, Text, text_eq, text_eq_iff,
}
use task_platform.Common.Dict
use task_platform.Common.Dict.{Dict, Key, text_key}
use task_platform.Alerts.{Alert, key_of, by_key, not_in, update}

-- Whether one of the alerts has the key.
abbrev pub reports : Text → List Alert → Bool
reports key alerts = any (λ a. text_eq (key_of a) key) alerts

-- Every active alert stands under its own key.
abbrev pub IsTracked : Dict Text Alert → Type 0
IsTracked d = All (λ e. key_of e.1 ≡ e.0) d

put-IsTracked :
    (d : Dict Text Alert) (a : Alert) → IsTracked d → IsTracked (Dict.put d (key_of a) a)
unfolding Dict.put
put-IsTracked [] a t = (refl, tt)
put-IsTracked ((j, b) ∷ d) a t = elim (Bool-cases (text_eq j (key_of a))) [
  | inl same ↦ rw same (sym ((text_eq_iff j (key_of a)).0 same), t.1)
  | inr other ↦ rw other (t.0, put-IsTracked d a t.1)
]

by_key-IsTracked :
    (alerts : List Alert) (d : Dict Text Alert) → IsTracked d → IsTracked (by_key alerts d)
by_key-IsTracked [] d t = t
by_key-IsTracked (a ∷ alerts) d t =
    by_key-IsTracked alerts (Dict.put d (key_of a) a) (put-IsTracked d a t)

has-by_key :
    (alerts : List Alert) (d : Dict Text Alert) (key : Text)
    → Dict.has (by_key alerts d) key ≡ (reports key alerts || Dict.has d key)
unfolding Dict.has
has-by_key [] d key = refl
has-by_key (a ∷ alerts) d key =
    has-by_key alerts (Dict.put d (key_of a) a) key
    ∙ ground (arith, Dict.get-put d (key_of a) key a)

-- The alerts of one table that another lacks.
reports-not_in :
    (d other : Dict Text Alert) (key : Text)
    → IsTracked d
    → reports key (map (λ e. e.1) (filter (not_in other) d))
      ≡ (Dict.has d key && not (Dict.has other key))
unfolding Dict.has Dict.get
reports-not_in [] other key t = ground arith
reports-not_in ((j, a) ∷ d) other key t =
    let own : text_eq (key_of a) key ≡ text_eq j key = ap (λ k. text_eq k key) t.0 in
    let rest = reports-not_in d other key t.1 in
    elim (Bool-cases (text_eq j key)) [
      | inl same ↦
          let equal : Dict.has other j ≡ Dict.has other key =
            ap (Dict.has other) ((text_eq_iff j key).0 same) in
          ground (arith, rest, own, equal)
      | inr apart ↦ ground (arith, rest, own)
    ]

-- The alerts that fired are those that are reported and were not active, those that are resolved
-- were active and are not reported, and afterwards exactly the reported ones are active.
pub update_changes :
    (alerts : List Alert) (active : Dict Text Alert) (key : Text)
    → IsTracked active
    → let ((fired, resolved), current) = update alerts active in
      (reports key fired ≡ (reports key alerts && not (Dict.has active key)))
      × (reports key resolved ≡ (Dict.has active key && not (reports key alerts)))
      × (Dict.has current key ≡ reports key alerts)
      × IsTracked current
unfolding update Dict.has Dict.get
update_changes alerts active key t =
    let current = by_key alerts [] in
    let tracked = by_key-IsTracked alerts [] tt in
    let now_active : Dict.has current key ≡ reports key alerts =
      has-by_key alerts [] key ∙ ground arith in
    (
      reports-not_in current active key tracked
          ∙ ap (λ b. b && not (Dict.has active key)) now_active,
      reports-not_in active current key t ∙ ap (λ b. Dict.has active key && not b) now_active,
      now_active,
      tracked,
    )
