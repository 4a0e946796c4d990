-- ===== src/Shared/Context.antt =====
-- src/shared/types/request-context.ts, the sentinel actor, and what one call takes from outside.
use dpdpos_backend.Prelude.{ℕ, String, List}

pub record RequestContext : Type 0 where
  pub correlation_id : String
  pub organization_id : String
  pub actor_user_id : String
  pub permissions : List String
  pub roles : List String

-- What a call of an operation takes from the clock and the generator of identifiers: the time that
-- `new Date()` and `now()` give, the identifier of a created row, and that of an outbox event.
pub record Call : Type 0 where
  pub now : ℕ
  pub new_id : String
  pub event_id : String

unfoldable pub system_actor_id : String
system_actor_id = "00000000-0000-0000-0000-000000000000"
