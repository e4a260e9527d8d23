-- ===== src/Gwems.antt =====
-- `GWEMS` of WebContent/js/GWEMS.js: the socket client, sets of channels and the messages.
pub mod Changes
pub mod Client
pub mod Messages
pub mod Serving
pub mod Sets
