-- ===== src/Uvc.antt =====
-- plugins/input_uvc/input_uvc.c and v4l2uvc.c: the camera.
pub mod Huffman
pub mod Camera
pub mod Commands
mod Tests
pub mod Options
pub mod Startup
