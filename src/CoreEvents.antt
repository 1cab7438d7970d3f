-- ===== src/CoreEvents.antt =====
-- lib/coreevents: the consumer that deduplicates and dispatches events (consumer.go, payloads.go),
-- with the message types of pkg/messaging/types.go.
pub mod Codec
pub mod Consumer
