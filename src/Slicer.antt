-- ===== src/Slicer.antt =====
-- Cutting a model in two, slicer/slice.py.
pub mod Graph
pub mod Candidates
pub mod Build
pub mod Kept
pub mod Renaming
pub mod Pools
pub mod Cut
pub mod Run
pub mod Faithful
pub mod Crossing
pub mod Agreement
pub mod Halves
pub mod Boundaries
pub mod Halving
