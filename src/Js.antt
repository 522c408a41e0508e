-- ===== src/Js.antt =====
-- The parts of JavaScript's standard library that the frontend's code uses.
pub mod Number
pub mod OrderedMap
pub mod Sort
pub mod Split
pub mod Slice
pub mod Decimal
pub mod SortPerm
pub mod Spread
