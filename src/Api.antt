-- ===== src/Api.antt =====
-- The HTTP API: api/schemas.py, api/errors.py and the routers.
pub mod Schemas
pub mod Errors
pub mod Jobs
pub mod Executions
