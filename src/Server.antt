-- ===== src/Server.antt =====
-- The server as a whole: the requests from the router to the sensors and back (sensor.go and
-- httphandlers.go).
pub mod State
pub mod Handlers
pub mod Mux
pub mod Filter
pub mod Router
pub mod Agreeing
pub mod Uncached
pub mod Routes
pub mod Answers
pub mod Answered
pub mod Unregistered
pub mod Same
pub mod Readiness
pub mod Logging
pub mod Failures
pub mod Start
mod Tests
pub mod Secrets
pub mod Panics
