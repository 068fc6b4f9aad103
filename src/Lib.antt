-- ===== src/Lib.antt =====
-- MJPG-streamer, the C program under mjpg-streamer/mjpg-streamer-experimental/ (paths below are from
-- there). Input plugins publish JPEG frames in the table `pglobal->in`; output plugins wait for fresh
-- frames and deliver them. The HTTP output plugin starts a thread per client; the HTTP input plugin is
-- a client of such a server.
--
-- Which file models what
--   Prelude, Prelude/Lists, Prelude/Int: lists, bytes and integers over the native numbers.
--   CString, CString/Number, CString/Digits, CString/Scan: what the code calls of string.h, strtol,
--     atoi, printf and sscanf.
--   Frames: the hand-over of a picture between the thread of an input plugin and those of the clients,
--     interleaved in any order. Frames/Threads has the moves between the lock of `db` and its unlock of
--     plugins/input_file/input_file.c, `worker_thread`, and plugins/output_http/httpd.c, `send_stream`;
--     Frames/System the steps of all threads, Frames/Invariant what every step keeps. Frames/Order,
--     Frames/Safety and Frames/Blocked hold the theorems. The picture is memory, byte by byte.
--     `worker_cleanup` is the move `clean_up` behind the loop; the theorems hold for what comes before it.
--   InputFile: plugins/input_file/input_file.c. A `Round` is what the calls of a round of its loop report;
--     InputFile/Options is `input_init`, over GetOpt, the loop over the options. InputFile/Serving is
--     about a round that succeeds, InputFile/Existing and InputFile/NewFiles about the two modes,
--     InputFile/Resources about what is open when the loop ends.
--   Http/Reader: plugins/output_http/httpd.c, `_read` and `_readline`; an `Event` is what select and
--     read report, and `iobuffer` is `Iobuffer`. Http/Reader/Lines holds the specification over the
--     text of the connection, Http/Reader/Progress that each line takes bytes away.
--   Http/Base64, Http/Escape: `decodeBase64`, `hex_char_to_int` and `unescape`, with their
--     specifications in Http/Base64/Encode and Http/Escape/Decode; Http/Escape/Digits
--     is about the digits of an escape.
--   Http/Types, Http/Client and its children: `client_thread`. RequestLine is the chain of tests on
--     the request line and the plugin number, HeaderLines the header loop, Reply the credentials, the
--     range of the plugin number and the switch. The functions that the switch calls are values of
--     `Action`. Text, Ends, Safe, Range and Access hold the theorems, Run and RequestLine/Shape their
--     lemmas.
--   Http/Stream, Http/Snapshot: `send_stream`, `send_snapshot` and `send_stream_wxp`, as the bytes
--     that they write.
--   Http/Response, Http/Command: `send_error`, and `command` with the numbers of its parameter.
--   Http/Files: `send_file` and `execute_cgi`, over what `open`, `popen` and the reads behind them give.
--     Http/Files/Sending is about the writes and the table of types, Http/Files/Extension about the four
--     answers, Http/Files/Folder about the paths.
--   Http/Json: the four JSON responses. Http/Json/Grammar is a reader of JSON, the specification;
--     Http/Json/WellFormed, Clients, Menus, Controls, Outputs, Formats and Inputs hold the texts
--     against it.
--   Http/Server: the loop of `server_thread` that opens the sockets, with Http/Server/Listed;
--     Http/Server/Accept is its accept loop.
--   Http/ClientTable: `add_client`, `check_client_status` and `update_client_timestamp`.
--   Main: mjpg_streamer.c, `split_parameters`; Main/Startup is the rest of `main`, and the handles that
--     `signal_handler` closes.
--   Jpeg: plugins/input_uvc/jpeg_utils.c, the lines of RGB bytes that `compress_image_to_jpeg` writes.
--     Jpeg/Destination is its destination of the encoder; what libjpeg does is the record `EncoderLaws`.
--   Uvc: plugins/input_uvc. Uvc/Huffman is `memcpy_picture` of v4l2uvc.c with the table of huffman.h;
--     memory is the list of its bytes from the picture on. Uvc/Camera is `uvcGrab` and the loop of
--     `cam_thread`, Uvc/Options the options of `input_init` with the macros of utils.h, Uvc/Startup what
--     `cam_thread` sets before its loop, Uvc/Commands is `input_cmd` and `v4l2SetControl`.
--   UdpOutput: plugins/output_udp/output_udp.c, `worker_thread`.
--   Utils: utils.c, `parse_resolution_opt`, with `sscanf` in CString/Scan.
--   FileOutput: plugins/output_file/output_file.c, `worker_thread` and `maintain_ringbuffer` over a
--     record `FileSystem` of the calls, whose documented laws are `FileSystemLaws` in FileOutput/Ring.
--     FileOutput/Command is `output_cmd`, FileOutput/Command/Outcome its theorems.
--     FileOutput/Options, UdpOutput/Options, Http/Options and Proxy/CommandLine are the option loops of
--     output_file, output_udp, output_http and input_http, over `getopt_long_only` as in GetOpt.
--   Proxy: plugins/input_http, the parser `extract_data` with misc.c. Proxy/Matcher is about
--     `search_pattern`, Proxy/Picture about the content phase, Proxy/Bounds about the buffer.
--     Proxy/Window, Proxy/Quiet, Proxy/Header and Proxy/PartHeader are about the mask tests and the
--     header phase; Proxy/RoundTrip puts the parser behind `send_stream` of Http/Stream.
--     Proxy/Connection is the loop over rounds and addresses, Proxy/Delivery its theorem;
--     Proxy/Request is about its request.
--
-- Bounds and fuel
--   IO_BUFFER is 256 bytes, a line has at most 1023, the picture buffer of the proxy 256 KiB less one.
--   `readline_loop` and `unescape_loop` recurse on the rounds left. `read_header` runs on fuel, one
--   more than the bytes that are buffered or may still arrive, since each round takes a byte.
--
-- What is not modelled
--   Memory allocation fails nowhere but for the frames of a response and in FileOutput/Command,
--   UdpOutput, Frames and InputFile. Sockets, threads, locks and the clock are the operating system's:
--   what they report stands in `Event`, `Round`, `Address`, `AddrInfo`, `Accepted` and in the argument
--   `cheater` (the result of `check_client_status`). libjpeg is not modelled but for the calls that it
--   documents. Texts put together by `sprintf` are modelled where they fit into their buffer. What
--   `sscanf` stores for a number that an `int` cannot hold is the argument `wide`. The texts
--   that options print are left out, and so are `daemon_mode`, the calls by which `signal_handler` stops
--   the plugins, `server_cleanup`, `init_v4l2` with the enumeration of the controls, the other plugins
--   and the vendored MMAL library.
pub mod Prelude
pub mod CString
pub mod Http
pub mod FileOutput
pub mod Frames
pub mod GetOpt
pub mod InputFile
pub mod Jpeg
pub mod Main
pub mod Proxy
pub mod UdpOutput
pub mod Utils
pub mod Uvc
