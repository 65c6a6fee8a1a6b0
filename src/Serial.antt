-- ===== src/Serial.antt =====
-- bridge/serial: the frame protocol of the serial link.
pub mod Frame
pub mod Decode
pub mod Ascii
pub mod Link
pub mod Device
pub mod Listen
