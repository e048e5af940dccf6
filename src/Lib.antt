-- ===== src/Lib.antt =====
-- wardnet-cloud: three services that give a household's daemon a public name.
--
-- The parts and how they interact. Tenants owns accounts, networks and, in its process, the license
-- aggregate (crates/subscriptions) and billing (crates/billing), which turns the events of the payment
-- provider into commands on the licenses. A region runs DDNS (crates/ddns), which publishes the A record
-- `<slug>.<parent>` of each network, and one or more Tunneller nodes (crates/tunneller). A daemon
-- opens a reverse tunnel to a node, which puts it in the node's registry under the network's slug and
-- claims the slug's row in the shared table `tunnel_routes`; a TLS connection from the Internet is
-- sent to that tunnel by its SNI, on the node itself or through the node that the row names. Two
-- reapers of each node compare the rows with what Tenants says of networks and licenses. What the
-- services share (input validation, the replay cache, the wire contract) is in crates/common.
--
-- The files, with the code that each models:
--   Prelude/         no code of the repository: lists, integers, buffers, texts, and an SQL table as
--                    the list of its rows with the statements that the repositories send
--   Contract/        source/crates/common/src/contract.rs: states with their database texts
--   Event            source/crates/common/src/event.rs: `DomainEvent`
--   Common/          source/crates/common/src: Validation is validation.rs, ReplayCache is
--                    replay_cache.rs, Auth is auth/mod.rs with the claims of token/mod.rs, ProxyProtocol is
--                    proxy_protocol.rs
--   Subscriptions/   source/crates/subscriptions/src: Repository is repository.rs, Service is
--                    service.rs with reactor.rs; the others are proofs
--   Tunneller/       source/crates/tunneller/src: Registry is tunnel/registry.rs, Routes is
--                    repository/routes.rs, Node is router/mod.rs, reconcile.rs, the admission in
--                    api/tunnel.rs and the end of tunnel/handler.rs, Handler is the loop of
--                    tunnel/handler.rs, Sni is sni/mod.rs, Forward is mesh/forward.rs; the files
--                    below these are proofs
--   Ddns/            source/crates/ddns/src: Repository is repository/operational.rs, Service is
--                    service/ddns.rs over the tasks of Run; the files below these are proofs
--   Billing/         source/crates/billing/src: Types is the data of gateway.rs and repository.rs,
--                    Gateway and Gateway/Signature the mapping and the signatures of gateway.rs,
--                    Repository and Catalog are the statements and the catalog, Webhook, Promos and
--                    Plans are service.rs; Ports is common/src/ports.rs, which Licenses fills with
--                    the service of Subscriptions; Run is the tasks; the files below are proofs, but
--                    Plans/Change and Plans/Checkout
--   Tenants/         source/crates/tenants/src: Repository is repository/tenant.rs, network.rs and
--                    daemon.rs, Enrollment is repository/enrollment.rs, Service and Grants are
--                    service.rs, Reconcile is api/reconcile.rs with reactor.rs, Identities is
--                    identities.rs with its children Flows and Link, identities/reactor.rs and the tables of
--                    repository/identity.rs and session.rs; the other files below these are proofs
--   */Tests          each theorem applied to concrete data
-- A function, a method or a type keeps its name from the source. A method takes the state of its
-- object as its last argument and returns the result with the new state.
--
-- What stands for what:
--   * A table is the list of its rows. A statement is atomic, as one SQL statement is; operations of
--     different tasks and replicas interleave between statements. Unique indexes that the code relies
--     on are either invariants that are proved, or conditions of a theorem. Ids are fresh UUIDs.
--   * The clock, the ids and the answers of other services are arguments. A `DateTime<Utc>` is a
--     signed number of seconds, with no bound. The generation of a registration is a `u64` that wraps.
--   * In the registry, the channel and the abort token of a registration are cells of a store, since
--     the registry and the handler share them; a call of the registry is one step, as the lock of the
--     `DashMap` shard makes it, and a theorem over `Reach` covers every interleaving of calls.
--   * In DDNS, the provider and the other replicas are an environment: any answer, any failure and any
--     write between two statements, as a function of all that the service did before.
--   * In billing, a call of the database or of the license aggregate can fail before or after it is
--     carried out; the faults are a list that is read call by call, and a delivery of an event may end
--     anywhere. Plan changes and checkouts run against an environment as DDNS does. A percentage and
--     its rounding are parameters.
--   * In Tenants, a method is a sequence of statements on its database, which answers; what the bus
--     took and what was mailed are kept in order.
--     The loop that links a login method is on fuel, while other tasks write the table; it ends in the
--     first round in which none does.
--   * A text that is compared byte by byte is a list of bytes. A read out of range of a buffer is the
--     outcome `none` of the parser, and so is the end of the fuel of its loop. The fuel is the length
--     of the extensions, and each round of the loop goes on by four bytes or more.
--   * Logging and metrics are left out, also where an error is only logged.
--
-- Not modelled: TLS and mTLS handshakes, the decoding of tokens, hashes and signatures (third-party
-- code, whose answers are arguments of the authentication), HTTP routing and OpenAPI,
-- configuration, telemetry, the mail and payment providers, the web applications and the deployment.
-- Neither are failures of the Tenants database.
pub mod Prelude
pub mod Billing
pub mod Common
pub mod Contract
pub mod Ddns
pub mod Event
pub mod Subscriptions
pub mod Tenants
pub mod Tunneller
