-- ===== src/Training.antt =====
-- The data of the model's training and of the flash images, model/train.py and
-- model/make_flash_assets.py.
pub mod Dataset
pub mod Labels
pub mod Calibration
pub mod Picks
pub mod Assets
pub mod Readback
