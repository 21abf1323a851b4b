-- ===== src/Restoration.antt =====
-- app/restoration: what is kept between the masking of a text and its return.
pub mod State
pub mod Store
pub mod Memory
pub mod Redis
