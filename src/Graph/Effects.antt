-- ===== src/Graph/Effects.antt =====
-- What the nodes of the graph, and runs along its edges, may do to the world.
mod Calls
mod Nodes
mod Settle
mod Ensure
mod Runs
pub use Calls.*
pub use Nodes.*
pub use Settle.*
pub use Ensure.*
pub use Runs.*
