-- ===== src/Lib.antt =====
-- my-s3, an S3 client in Rust, modelled and proved.
--
-- The client sends signed requests to an S3-compatible storage and types its answers. Objects are
-- uploaded as streams through a writer, downloaded as streams, or read through a seekable reader.
--
-- Parts of the program, and the files that model them:
--   src/upload_writer.rs    Upload/State (`UploadWriterState`, `settle`), Upload/Writer (the calls of
--                           `S3UploadWriter`). Each atomic is its value. tokio's bounded channel
--                           answers each send with `full`, `room` or `closed`, as an argument of the
--                           call; the field `body` collects what it has taken. Invariant, Stream and
--                           Count are about one call, Run about any history of calls, Calls about
--                           the answers.
--   src/upload_handle.rs    Upload/Handle (`finish`, `Drop`), with `finish_upload_with_writer` and the
--                           task of `start_upload` of src/s3_client.rs; Verdict and Delivery.
--                           Upload/Pipe runs writer, channel, task and handle in any order, as a step
--                           relation; Parked, Invariant, Steps, Safety and Waiting are about it,
--                           Between about a call that sends twice.
--   src/download_stream.rs  Download (`get_next_chunk`), Download/Whole (an object read to its end).
--   src/reader.rs           Reader (`AsyncRead` and `AsyncSeek`; the answer of the request in flight is
--                           an argument of the poll), Reader/Fetch (the loop of that request),
--                           Reader/File (a reader against the bytes of the object), Reader/Seek,
--                           Reader/History (any sequence of calls), and Reader/Storage (a read down to
--                           the request of the client).
--   src/error.rs            Error (`S3Error`, `is_retryable`). flurl's error is a type parameter, seen
--                           through `FlUrlErrorView`. Error/Display is its text.
--   src/region.rs           Region, Region/RoundTrip.
--   src/xml.rs              Xml/Safe (`is_safe_to_read`), Xml/Safe/Kinds (its tags, told by their
--                           spelling), Xml/Documents (the documents that it lets through, as trees), Xml/Entities (`unescape`), Xml/Walker
--                           (`read_node_text`, `XmlWalker`). The crate `my_xml_reader` is the parameter
--                           `XmlReader`.
--   src/s3_client.rs        Client/Answers and Client/Objects (what an operation makes of an answer),
--                           Client/Classify, Client/Retries (the loop of the retrying uploads).
--                           Client/Transport (flurl, the clock and the hashes as the fields of
--                           `Environment`; requests that went out and printed lines as the state
--                           `Outside`), Client/Send (`send_get` and its kin, `trace_response`,
--                           `sign_request`), Client/Payloads (queries and bodies), Client/Requests (the
--                           operations, from the url to the result), Client/Calls (an operation as
--                           data). Signed and Sends are about what is sent, Tracing and Console about
--                           `debug_to_console`, ListQuery and Places about what the requests say,
--                           Repeats about the requests of the retrying uploads, Opening
--                           and Ranges about a range from its arguments to the stream.
--   src/list_objects.rs     Listing (the data of a page), Listing/Loops (`parse_list_objects_v2`, over the
--                           walker), Listing/Settles and Listing/Pages (the loops end), and
--                           Listing/Contents, Listing/Entries and Listing/Readback (what a document
--                           says, and the page that is read from it, over Xml/Walker/Told).
--   src/utils.rs            Query/Encode, Query/Canonical (the query strings that are signed), and
--                           Query/Params, Query/Order, Query/Readback and Query/Parts about them.
--                           Signing (`sign_request`; `hmac`, `sha2`, `hex` and the clock are
--                           parameters) and Signing/Covers.
-- Base holds what the files share. The files whose names end in Tests run the definitions at concrete
-- inputs, those of the client over the storage of Client/Setting.
--
-- How the parts meet: a writer and a handle share one `UploadWriterState`; the client's retries repeat
-- an upload as `is_retryable` says; the reader fetches through `download_file_range` and the stream;
-- the client types a failure by the code that `read_node_text` finds in the body.
--
-- Conventions: a string is its bytes, a byte is a number; `u64` arithmetic wraps where it is written
-- `add_u64` and `sub_u64`; `usize` has 64 bits. Fuel: the scan of the tags and the loop of `unescape`
-- have one round for each byte, the retries one for each attempt that is allowed, the loops of a
-- listing one for each byte of the body; elsewhere a loop over children takes its fuel as an argument.
-- Every round of the first two shortens the text, every retry is counted, and every child that is
-- found moves the reader forward, so that the fuel does not run out.
--
-- Not modelled: what flurl puts on the wire, hyper and tokio; the `Debug` implementations, which make
-- text only; the deadline of a request, which flurl keeps. In Upload/Pipe a call of the writer is one
-- step: the chunks that it counts are handed over in later steps, it may find the channel closed by a
-- task that ends during the call, and what happens between its two sends is what happens between a
-- call with an empty buffer and that call.
mod Base
pub mod Error
pub mod Region
pub mod Xml
pub mod Upload
pub mod Download
pub mod Reader
pub mod Client
pub mod Query
pub mod Listing
pub mod Signing
