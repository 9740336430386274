-- ===== src/Doxy.antt =====
-- gr-gtsrc/docs/doxygen/doxyxml: `Base` of base.py and its subclasses in doxyindex.py. The objects
-- stand on a heap, since they are shared (by `_refs` and as members) and keep what they computed.
pub mod Heap
pub mod Base
pub mod Parse
pub mod Lookup
pub mod Dict
pub mod Cached
pub mod Settled
pub mod Asked
pub mod Broken
pub mod Valid
pub mod Once
mod Tests
