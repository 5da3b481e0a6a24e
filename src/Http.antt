-- ===== src/Http.antt =====
-- localpost/http: the parts of the HTTP server that are modelled.
pub mod Types
pub mod Template
pub mod Router
pub mod Static
pub mod Compress
pub mod Cancel
pub mod Connection
pub mod Selector
pub mod Writer
pub mod Body
