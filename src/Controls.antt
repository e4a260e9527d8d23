-- ===== src/Controls.antt =====
-- The two controls of the avatar: keys, and what an update does to the object.
pub mod Keys
pub mod Fly
pub mod Walk
pub mod Events
