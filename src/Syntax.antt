-- ===== src/Syntax.antt =====
-- src/syntax.c and src/syn_tree.c: the parser and the tree that it builds.
pub mod Tree
pub mod Stream
pub mod Goals
pub mod Expressions
pub mod Operands
pub mod Assignments
pub mod Statements
pub mod Functions
pub mod Grammar
pub mod Printing
pub mod Reading
pub mod RoundTrip
pub mod Programs
pub mod Promises
pub mod Invariant
pub mod Blocks
pub mod Assigning
pub mod Weights
pub mod Total
mod Tests
