-- ===== src/Client.antt =====
-- src/impl/client.cpp: the client that subscribes to the tracks of a conference over socket.io, part
-- by part.
pub mod Acks
pub mod Callbacks
pub mod Candidates
pub mod Messages
pub mod Reading
pub mod Requests
pub mod RoundTrip
pub mod Scope
pub mod Subscribe
pub mod Tracks
mod Tests
mod Flows
