-- ===== src/Api/Errors.antt =====
-- api/errors.py and `get_session` of api/deps.py: each request is one transaction, and an exception that
-- leaves a route becomes a response with its status and its code.
use task_platform.Common.{ℕ, Option, none, some, Text, codes, ◌≡◌, refl, ap}
use task_platform.Domain.Effects.{value_error, api_error, Result, ok, err, Action}
use task_platform.Db.Tables.{Database}
use task_platform.Db.Session.{session_scope, settle}

-- A successful response with its status, or an error with its status, code and message.
pub data Response (A : Type 0) : Type 0 where
  replied : ℕ → A → Response A
  refused : ℕ → Text → Text → Response A

module _ {A : Type 0} where
  -- The handlers that `register_error_handlers` installs.
  unfoldable pub to_response : ℕ → Result A → Response A
  to_response status_code (ok a) = replied status_code a
  to_response status_code (err (api_error status code message)) = refused status code message
  to_response status_code (err e) = refused 500 (codes "internal_error") (codes "服务内部错误")

  abbrev answered : ℕ → Result A × Database → Response A × Database
  answered status_code r = (to_response status_code r.0, r.1)

  unfoldable pub respond : ℕ → Action Database A → Database → Response A × Database
  unfolding to_response
  respond status_code route db = answered status_code (session_scope route db)

  -- A body or a query that the validation library refuses never reaches the route.
  abbrev pub validated :
      {B : Type 0}
      → Option B
      → (B → Database → Response A × Database)
      → Database
      → Response A × Database
  validated none route db = (refused 422 (codes "validation_error") (codes "请求参数不合法"), db)
  validated (some b) route db = route b db

module _ {A : Type 0} where
  pub respond-eq-ok :
      (status_code : ℕ) (route : Action Database A) (db after : Database) (a : A)
      → route db ≡ (ok a, after)
      → respond status_code route db ≡ (replied status_code a, after)
  unfolding respond to_response
  respond-eq-ok status_code route db after a h = rw h refl

  pub respond-eq-api_error :
      (status_code : ℕ) (route : Action Database A) (db : Database) (status : ℕ)
      (code message : Text)
      → (route db).0 ≡ err (api_error status code message)
      → respond status_code route db ≡ (refused status code message, db)
  unfolding respond to_response
  respond-eq-api_error status_code route db status code message h = go (route db) h
    where
      go :
          (r : Result A × Database)
          → r.0 ≡ err (api_error status code message)
          → answered status_code (settle db r) ≡ (refused status code message, db)
      go (ok a, u) e = cc
      go (err x, u) e = ap (λ (r : Result A). answered status_code (r, db)) e

  pub respond-eq-value_error :
      (status_code : ℕ) (route : Action Database A) (db : Database)
      → (route db).0 ≡ err value_error
      → respond status_code route db ≡ (refused 500 (codes "internal_error") (codes "服务内部错误"), db)
  unfolding respond to_response
  respond-eq-value_error status_code route db h = go (route db) h
    where
      go :
          (r : Result A × Database)
          → r.0 ≡ err value_error
          → answered status_code (settle db r)
            ≡ (refused 500 (codes "internal_error") (codes "服务内部错误"), db)
      go (ok a, u) e = cc
      go (err x, u) e = ap (λ (r : Result A). answered status_code (r, db)) e
