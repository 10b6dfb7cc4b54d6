-- ===== src/Debugger.antt =====
-- The debugger's global state, the exceptions of include/utils/exceptions.h as results, and the
-- monad that the operations are written in. The operating system is the parameter `Kernel`.
pub mod Exceptions
pub mod Tracee
pub mod Monad
pub mod State
pub mod Ends
pub mod Laws
unfoldable pub use State.*
unfoldable pub use Monad.*
