-- ===== src/Lib.antt =====
-- camera-rs: a model of the portable core of the camera library.
--
-- A backend captures frames and publishes them into a `FrameHub`; each reader has a `FrameReceiver` with
-- its own queue. A stream request says what a session captures and how much memory the hub may use, a
-- frame layout says where the samples of a frame lie, and every operation fails with a `CameraError`.
--
-- - Base: tests, lists, machine words, integers. `usize` and `u64` are native numbers with their bounds
--   written out (a 64-bit target).
-- - Error (src/error.rs, OperationStage of src/contract.rs): kinds, recovery hints and stages with their
--   codes, the error value and its constructors, UVC status codes. Texts and causes are left out.
-- - Config (VideoFormat and CameraConfig of src/types.rs): frame sizes and validation.
-- - Identity (BackendId and DeviceId of src/contract.rs): identifiers and their persistent strings.
-- - Format (src/format.rs): Rate is FrameRate, Pixel the format types, Layout `FrameLayout::rgb`,
--   `packed` and `validate`, Chroma `interleaved_chroma_layout`, Request the stream request.
-- - Hub (src/frame.rs): State is the state of FrameHub, Reserve `reserve` and the drop of a lease,
--   Publish `finish_publish` and `publish` with the entries for RGB and native frames and the native write
--   lease, Delivery the closure that `finish_publish` runs for each subscriber, Control `configure`,
--   `start`, `stop` and the recovery signals, Reports `log_frame_error`, `metrics` and `stats`, Receive
--   `subscribe_with` and a round of `FrameReceiver::next`, World all users of one hub, with their open
--   leases, as steps in any order (the native write lease is not among them).
-- - Negotiation (src/api.rs, CaptureRequest of src/contract.rs): the filter and the ranking of a device's
--   configurations, and `validate_requested_capture`.
-- - Recovery (src/api.rs): `recovery_retry_delay` and `validate_recovered_capture`.
-- - Session (src/api.rs): a started session with its callers of `request_stop`, its tasks of `stop` and the
--   task of `spawn_recovery`, as steps between the places where another may run.
-- - Convert (src/conversion.rs, `yuv_pixel` of src/utils/color_convert.rs): Paths the requests, the reported
--   strategy and the dispatch of `convert_layout_into`, Map `NearestMap`, Row `resize_rgb_row_nearest`, Scale
--   `scale_nearest` and `scale_yuv_scalar`, Colour the arithmetic of one pixel.
-- - Limiter (src/utils/frame_rate.rs): FrameRateLimiter. Jpeg (src/mjpeg.rs): `complete_frame`.
--
-- The hub is a state that each operation takes and returns; an operation that holds a lock is one step.
-- `stop` is one too, and in World also two, since a publication may come between its parts. An `Arc` to a
-- frame's storage is the name of a buffer in a heap; `Storage::unique` asks whether a frame that somebody
-- can read names it. Instants are nanoseconds on one clock and are arguments. The interval of a frame rate
-- and the distance of two rates are floating-point arithmetic and stay parameters. All loops are
-- structural recursion on a list, but for the division steps of the greatest common divisor, which recurse
-- on accessibility. The loop of failing recovery attempts recurses on the list of the failures: as many as
-- the attempts that the limit leaves are enough. A session's source is a parameter that may answer
-- anything; what its calls do to the hub is the step of a backend that begins or ends a generation. The
-- hub is the device's: once a session has given the device up, the next session may leave the hub in any
-- state.
--
-- Not modelled: the platform backends (foreign functions), the SIMD kernels of the colour conversion and the
-- conversion by whole YUV rows, the JPEG decoder, the floating-point colour coefficients, the waits of the
-- asynchronous runtime, the start of a session up to its first frame, controls, and device watching.
pub mod Base
pub mod Error
pub mod Config
pub mod Identity
pub mod Format
pub mod Hub
pub mod Negotiation
pub mod Recovery
pub mod Session
pub mod Convert
pub mod Limiter
pub mod Jpeg
