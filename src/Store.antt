-- ===== src/Store.antt =====
-- The data service behind the API (Supabase): its rows, the client that handlers call, and what
-- they rely on of it.
mod Rows
mod Interface
mod Handler
pub mod Laws
pub mod Memory
pub mod Keys
pub use Rows.*
pub use Interface.*
pub use Handler.*
