-- ===== src/Queue/Memory/Renewed.antt =====
-- About `renew` of infrastructure/queue/memory.py on the list of entries.
use task_platform.Common.{
  ℕ, ◌≡◌, refl, sym, ap, ◌∙◌, inl, inr, Bool, true, false, none, some, List, [], ◌∷◌, ◌++◌, map,
  arith, ◌==◌, if◌then◌else◌, ==_iff, Bool-cases, any, Text, text_eq,
}
use task_platform.Domain.Execution.{Instant}
use task_platform.Common.Dict
use task_platform.Common.Dict.{Dict, Key, text_key, nat_key, dict_laws, IsDict}
use task_platform.Queue.Message.{TaskMessage}
use task_platform.Queue.Memory.{Pending}
use task_platform.Queue.Log.{Entry, is_held_by, renew_held}
use task_platform.Queue.Memory.AsLog.{leased, waiting}

pub get_head :
    (j id : ℕ) (p : Pending) (d : Dict ℕ Pending)
    → (j == id) ≡ true
    → Dict.get ((j, p) ∷ d) id ≡ some p
unfolding Dict.get
get_head j id p d e = rw e refl

pub get_tail :
    (j id : ℕ) (p : Pending) (d : Dict ℕ Pending)
    → (j == id) ≡ false
    → Dict.get ((j, p) ∷ d) id ≡ Dict.get d id
unfolding Dict.get
get_tail j id p d e = rw e refl

pub waiting-not_held :
    (id : ℕ) (consumer : Text) (r : ℕ × TaskMessage) → is_held_by id consumer (waiting r) ≡ false
waiting-not_held id consumer r = ground arith

pub other-not_held :
    (id j : ℕ) (consumer : Text) (p : Pending)
    → (j == id) ≡ false
    → is_held_by id consumer (leased (j, p)) ≡ false
other-not_held id j consumer p h = rw h refl

-- An entry that is not held is passed by.
pub renew_skip :
    (id : ℕ) (consumer : Text) (now : Instant) (e : Entry) (entries after : List Entry) (b : Bool)
    → is_held_by id consumer e ≡ false
    → any (is_held_by id consumer) entries ≡ b
    → renew_held id consumer now entries ≡ after
    → (any (is_held_by id consumer) (e ∷ entries) ≡ b)
      × (renew_held id consumer now (e ∷ entries) ≡ e ∷ after)
renew_skip id consumer now e entries after b free found changed =
    (rw (free, found) refl, rw free (ap (λ es. e ∷ es) changed))

pub renew_none :
    (id : ℕ) (consumer : Text) (now : Instant) (d : Dict ℕ Pending) (ready : List (ℕ × TaskMessage))
    → Dict.get d id ≡ none
    → let entries = map leased d ++ map waiting ready in
      (any (is_held_by id consumer) entries ≡ false)
      × (renew_held id consumer now entries ≡ entries)
unfolding Dict.get
renew_none id consumer now [] [] h = (refl, refl)
renew_none id consumer now [] (r ∷ ready) h =
    let (found, changed) = renew_none id consumer now [] ready h in
    renew_skip id consumer now (waiting r) (map waiting ready) (map waiting ready) false
      (waiting-not_held id consumer r) found changed
renew_none id consumer now ((j, p) ∷ d) ready h = elim (Bool-cases (j == id)) [
  | inl e ↦ cc (h, get_head j id p d e)
  | inr e ↦
      let (found, changed) = renew_none id consumer now d ready (sym (get_tail j id p d e) ∙ h) in
      let entries = map leased d ++ map waiting ready in
      renew_skip id consumer now (leased (j, p)) entries entries false
        (other-not_held id j consumer p e) found changed
]

pub renew_some :
    (id : ℕ) (consumer : Text) (now : Instant) (d : Dict ℕ Pending) (ready : List (ℕ × TaskMessage))
    (p : Pending)
    → IsDict d
    → Dict.get d id ≡ some p
    → let entries = map leased d ++ map waiting ready in
      let mine = text_eq p.consumer consumer in
      (any (is_held_by id consumer) entries ≡ mine)
      × (renew_held id consumer now entries
          ≡ map leased (if mine then Dict.put d id (record p { delivered_at = now }) else d)
            ++ map waiting ready)
unfolding Dict.get Dict.put
renew_some id consumer now [] ready p once h = cc
renew_some id consumer now ((j, w) ∷ d) ready p once h = elim (Bool-cases (j == id)) [
  | inl e ↦
      let same : p ≡ w = cc (h, get_head j id w d e) in
      let (found, changed) =
        renew_none id consumer now d ready (ap (Dict.get d) (sym ((==_iff j id).0 e)) ∙ once.0) in
      rw same (
        rw (e, found) (ground arith),
        elim (Bool-cases (text_eq w.consumer consumer)) [
          | inl m ↦ rw (e, m) (ap (λ es. leased (j, record w { delivered_at = now }) ∷ es) changed)
          | inr m ↦ rw (e, m) (ap (λ es. leased (j, w) ∷ es) changed)
        ],
      )
  | inr e ↦
      let (found, changed) =
        renew_some id consumer now d ready p once.1 (sym (get_tail j id w d e) ∙ h) in
      let mine = text_eq p.consumer consumer in
      let (found', changed') =
        renew_skip id consumer now (leased (j, w)) (map leased d ++ map waiting ready)
          (map leased (if mine then Dict.put d id (record p { delivered_at = now }) else d)
            ++ map waiting ready)
          mine (other-not_held id j consumer w e) found changed in
      (found', changed' ∙ (elim (Bool-cases mine) [ inl m ↦ rw (m, e) refl | inr m ↦ rw m refl ]))
]
