-- ===== src/Model.antt =====
-- The database of the shop (apps/backend/prisma/schema.prisma), as the backend's services see it.
mod Status
mod Errors
mod Catalog
mod Sales
mod Schema
pub use Status.*
pub use Errors.*
pub use Catalog.*
pub use Sales.*
pub use Schema.*
