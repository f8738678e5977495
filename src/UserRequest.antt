-- ===== src/UserRequest.antt =====
-- cthulhu/cthulhu/manager/user_request.py. An object is a record of the base classes' attributes
-- and a tag with the attributes that its class adds; a method mutates the object and may raise,
-- and it may start salt jobs. `Attributes` has the data, `Methods` the methods of the base classes,
-- `OnMap` the handlers of new cluster maps.
pub mod PgProgress
mod Attributes
mod Methods
mod OnMap
pub mod Lifecycle
pub mod Growth
pub mod Rounds
pub mod Splitting
unfoldable pub use Attributes.*
unfoldable pub use Methods.*
unfoldable pub use OnMap.*
