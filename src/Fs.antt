-- ===== src/Fs.antt =====
-- The virtual files and pipes of a node, src/subsys/fs/fsstate.{h,cpp}. A path and a content are lists of
-- bytes. The descriptor table is part of the state, as it is shared with the sockets through it.
pub mod Strings
pub mod Tree
pub mod State
pub mod Pipes
pub mod Fifo
pub mod Created
pub mod Total
pub mod Resolve
pub mod Files
pub mod Mapped
pub mod Open
pub mod Inodes
pub mod Query
pub mod Walk
pub mod TreeLaws
pub mod TreeFiles
pub mod TreeOpen
pub mod TreeSteps
pub mod Contents
pub mod MappedLaws
pub mod Leaf
pub mod Namespace
pub mod Ranges
pub mod RangeLaws
mod Tests
