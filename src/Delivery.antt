-- ===== src/Delivery.antt =====
-- From a call of `publish` (pub.c) to the user's function of a worker (sub.c). nsqd is between them: what
-- it does with the messages that it reads is a hypothesis.
pub mod Stream
pub mod Handled
mod Tests
