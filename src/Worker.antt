-- ===== src/Worker.antt =====
-- services/worker-image: the consumer of q.image.
pub mod Amqp
pub mod Processor
pub mod Services
pub mod Handler
pub mod Consume
pub mod Config
pub mod Broker
pub mod Decode
pub mod Encode
pub mod Main
