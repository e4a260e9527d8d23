-- ===== src/Tests.antt =====
-- Runs of the models at concrete inputs.
mod Quads
mod Messages
mod Motion
mod Tags
mod Panel
mod Round
mod Update
mod Digest
mod Scene
mod Hearing
mod Page
