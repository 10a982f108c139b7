-- ===== src/Messaging.antt =====
-- app/messaging/kafka.py: what is sent to the broker (`Publisher`), the
-- life of the producer that sends it (`Producer`), and the consumer of every
-- worker (`Consumer`).
pub mod Publisher
pub mod Producer
pub mod Consumer
