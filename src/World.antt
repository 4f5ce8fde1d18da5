-- ===== src/World.antt =====
-- What the controller works on and with: the answers of the outside (`Cluster`: Kubernetes' libraries,
-- the API server, the clock, the informers' stores), the state that the controller's code changes
-- (`World`), and actions on that state that may panic.
mod Outside
mod Monad
pub mod Runs
unfoldable pub use Outside.*
unfoldable pub use Monad.*
