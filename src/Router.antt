-- ===== src/Router.antt =====
-- pkg/actionrouter: the pipeline of operations that rewrites each action.
pub mod State
pub mod Template
pub mod Merge
pub mod Operations
pub mod Pipeline
pub mod Config
pub mod Build
pub mod Sound
pub mod ImageRoots
pub mod Loading
pub mod Merging
pub mod Triples
pub mod Platform
pub mod Trimming
pub mod Tracking
pub mod Ordering
pub mod Canonical
pub mod Outcome
pub mod Service
pub mod Routed
mod Tests
mod ConfigTests
mod ServiceTests
pub mod Variables
pub mod Environment
pub mod AnyOrder
pub mod NamesOnce
pub mod Arguments
