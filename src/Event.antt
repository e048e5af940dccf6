-- ===== src/Event.antt =====
-- crates/common/src/event.rs: the domain events that the aggregates send one another.
use wardnet_cloud.Prelude.{String}

pub data DomainEvent : Type 0 where
  tenant_created tenant_deregistered subscription_deactivated : String → DomainEvent
