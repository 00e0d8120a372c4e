-- ===== src/Responses.antt =====
-- app/responses_compat.py: the Responses protocol over the Messages protocol. Stream is the converter of
-- a stream of events, Messages and Request the conversion of a request, Answer that of a whole answer.
pub mod Stream
pub mod Messages
pub mod Items
pub mod Request
pub mod Answer
mod Tests
