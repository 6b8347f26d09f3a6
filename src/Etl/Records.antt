-- ===== src/Etl/Records.antt =====
-- etl/records.py: the records as a source delivers them, and Python's `Decimal` as a coefficient with
-- its number of decimal places. A field that the annotation lets be None is an option.
use task_platform.Common.{ℕ, ◌^◌, Bool, Option, List, [], ◌∷◌, ℤ, pos, ◌*ℤ◌, ltb_ℤ, Text, codes}
use task_platform.Domain.Execution.{Instant}

-- coefficient / 10 ^ places
pub record Decimal : Type 0 where
  pub coefficient : ℤ
  pub places : ℕ

-- `a < b` on two decimals.
unfoldable pub decimal_ltb : Decimal → Decimal → Bool
decimal_ltb a b =
    ltb_ℤ (a.coefficient *ℤ pos (10 ^ b.places)) (b.coefficient *ℤ pos (10 ^ a.places))

-- `VALID_ORDER_STATUSES`
abbrev pub valid_order_statuses : List Text
valid_order_statuses = codes "PAID" ∷ codes "CANCELED" ∷ codes "PENDING" ∷ []

pub record RawOrder : Type 0 where
  pub order_id : Option Text
  pub user_id : Text
  pub product_id : Text
  pub quantity : ℤ
  pub unit_price : Decimal
  pub discount : Decimal
  pub status : Text
  pub created_at : Option Instant

pub record RawUser : Type 0 where
  pub user_id : Text
  pub region : Text
  pub register_date : ℕ
  pub member_level : Text
