-- ===== src/Figures.antt =====
-- The numbers behind the figures and tables of the report, analysis/figures.py.
pub mod Projection
pub mod Crossover
pub mod Stages
