-- ===== src/Frames.antt =====
-- plugins/input.h, plugins/input_file/input_file.c and plugins/output_http/httpd.c: the picture that the
-- thread of an input plugin hands to the threads of the output plugins, under the mutex `db`.
mod Buffer
mod Threads
mod System
mod Invariant
mod Safety
mod Order
mod Blocked
mod Tests
