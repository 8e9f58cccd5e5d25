-- ===== src/Conf.antt =====
-- The configurations of pkg/conf: the environment in a text, the tree of a configuration, and its files.
pub mod Env
pub mod Expand
pub mod Tree
pub mod Load
mod Tests
