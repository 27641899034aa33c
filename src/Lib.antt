-- ===== src/Lib.antt =====
-- fast-dav-rs: a CalDAV and CardDAV client over HTTP with compressed bodies.
--
-- The program sends WebDAV requests (src/webdav/client.rs), compresses their bodies as negotiated
-- with the server and decodes the answers (src/common/compression.rs), parses multistatus documents
-- event by event (src/webdav/streaming.rs with src/caldav/streaming.rs or src/carddav/streaming.rs),
-- and maps the parsed items to calendars, address books and sync results (src/caldav/client.rs,
-- src/carddav/client.rs). The texts of queries are escaped and validated by src/webdav/xml.rs.
--
-- Files:
-- - WebDav/Xml: src/webdav/xml.rs; WebDav/Types: src/webdav/types.rs.
-- - WebDav/Streaming: CommonParser of src/webdav/streaming.rs; the element that is open last heads
--   the stack. WebDav/Nesting says which documents have tags that nest.
-- - CalDav/Streaming, CardDav/Streaming: MultistatusParser, its handlers, the two loops and the public
--   functions over them. The XML reader (WebDav/Reader) is the list of the outcomes of its calls. Among
--   their children, Lockstep and Nesting are about the two stacks, Timeout about the two loops, Visit
--   and Callbacks about the consumers (with WebDav/Delivery), and Documents about what is read from the
--   events of a whole document.
-- - CalDav/Types, CalDav/Mapping, CalDav/Queries, CalDav/Client, CalDav/Writes: the records and
--   functions of src/caldav, with CalDav/Homes, CalDav/Validation, CalDav/Conditional, CalDav/Reads
--   and CalDav/EndToEnd for proofs. CardDav has files of the same names for src/carddav. An operation
--   that reads acts on the world of a Server (WebDav/Server), which sends a request and gives an
--   answer; one that writes acts on a Session.
-- - Common/Compression: the headers, the chains of coders, and the negotiation by weights.
-- - WebDav/Client: the client is a record of the fields that stay as they are, and a Session holds
--   the negotiated encoding that clones share, the requests sent so far, and the answers to come;
--   each operation returns the session that it leaves. WebDav/Client/Send has the loop of `send` and
--   `send_stream`, on a fuel of two rounds, which suffice, since it sends again only after the first.
-- - WebDav/Client/Setup: the creation and the settings of a client. WebDav/Client/Serve: the client as
--   the Server of the reading operations.
-- - WebDav/Client/Sharing: tasks of clients that share a negotiation, as a step relation on the shared
--   encoding, the holder of the lock and the place of each task; a step is one access. Its children
--   Probes and Progress are about all interleavings, and Sequential, Preparing and Rounds about the
--   steps that one round of the loop of `send` takes while no other task moves.
-- - WebDav/Client/Batch: `propfind_many` and `report_many`, as steps of the futures in the queue with
--   the permits of the semaphore; Limit, Completion and Progress are its proofs, and Requests puts the
--   requests of the client in.
-- - WebDav/Client/Trace: which requests a call adds to those of its session.
-- - CalDav/Facade, CardDav/Facade: the methods that hand a call over to the inner client.
-- - Base: lists, options, texts as lists of code points, UTF-8, sorting. Tests: runs at inputs.
--
-- Third-party code is a parameter: HeaderApi (header maps of the http crate, with the laws of insert
-- and remove), HttpApi (URIs and request builders), CodecApi (coders, where decoding undoes encoding),
-- F32Api (floats with their order), Server, the `unescape` of quick-xml, and the encoder of base64. Each
-- interface has an instance in the runs or beside it. An error keeps its kind and not its message.
--
-- Not modelled: the HTTP connector (src/common/http.rs), which only configures third-party code, so
-- that `new` takes its outcome as a parameter; the module files and src/lib.rs, which hold names and
-- documentation; and the wiping of credentials from memory in `new`, which no result depends on.
pub mod Base
pub mod WebDav
pub mod CalDav
pub mod CardDav
pub mod Common
pub mod Tests
