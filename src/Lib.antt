-- ===== src/Lib.antt =====
-- A model of cyclonedds-rs, the Rust interface to Eclipse Cyclone DDS, with theorems on the parts that
-- have logic of their own. The C library, the CDR codec and the standard library's wakers are
-- parameters, with what they are documented to do as laws.
--
-- The parts, and how they meet. The C library calls the functions of the serdata table
-- (cyclonedds/src/serdata.rs) to build a serdata from fragments, from scattered buffers, from a key
-- hash, from a sample or from shared memory, to serialize it in windows, and to put it into a sample
-- (cyclonedds/src/serdes.rs) in an array that cyclonedds/src/sertype.rs allocates. Scattered bytes are
-- joined by cyclonedds/src/util.rs, and data that cannot be joined is counted by
-- cyclonedds/src/stats.rs. An asynchronous read (cyclonedds/src/futures.rs) registers a waker, reads,
-- and asks the match watch (cyclonedds/src/match_watch.rs) whether the writer has been away for too
-- long; the watchdog thread of the same file wakes the reader at that moment. Participants and domains
-- (cyclonedds/src/dds_participant.rs, cyclonedds/src/dds_domain.rs) are shared through the registry of
-- cyclonedds/src/shared_registry.rs. A QoS (cyclonedds/src/dds_qos.rs) is summarised by a policy.
-- cyclonedds/src/interface_gen.rs collects the IDL and .msg definitions of a type, driven by the
-- recursion that dds_derive/src/lib.rs generates; the macros of that file check the names, the keys and
-- the attributes of a struct first. A listener (cyclonedds/src/dds_listener.rs) boxes its callbacks for
-- the C library; the builders of readers and writers (cyclonedds/src/dds_reader.rs,
-- cyclonedds/src/dds_writer.rs) chain their own callbacks to those of the user, which wake the
-- asynchronous reads and update the match watch, and the reads fill the samples of a buffer.
-- The benchmark is a client of all this: a runner (bench/src/bin/runner.rs) starts a publisher
-- (bench/src/bin/publisher.rs), which sends numbered messages at a rate, and a subscriber
-- (bench/src/bin/subscriber.rs), which counts what arrives; it reads the lines that they print. The
-- cases, the percentiles and the size of a payload are those of bench/src/lib.rs.
--
-- The files:
--   Common, Common/*       numbers, integers, lists and tests that the others share
--   Util, Util/*           SGReader: new, read, into_vec
--   Stats                  count_discarded_sample, total
--   Serdata                the data: SerData, KeyHash, SampleData, the C header, the codec
--   Serdata/Fragchain, */* serdata_from_fragchain, serdata_from_ser_iov
--   Serdata/Ser, */*       *_to_ser, *_to_ser_ref, *_get_size
--   Serdata/Keys, */*      serdata_eqkey, *_keyhash, serdata_to_untyped
--   Serdata/Convert, */*   serdata_from_sample, serdata_to_sample, serdata_from_psmx
--   MatchWatch, */*        MatchWatch, and under Watchdog the thread and its interleavings
--   Error, Error/*         DDSError and the return codes, ReaderError, Result
--   Futures, Futures/*     ReaderShared, the listener's callbacks, read
--   Registry, Registry/*   SharedRegistry; Domains and Participants are its two clients
--   Qos, Qos/*             DdsQos with its handles, and Policy
--   InterfaceGen, */*      NsMode, DefRegistry, MsgDefRegistry; Types is InterfaceRef
--   Samples, Samples/*     Sample, SampleBuffer, sertype_realloc_samples, sertype_free_samples
--   Derive, Derive/*       the checks of the derive macros: Names, Attributes, Keys; Expansion is
--                          derive(Topic), Interface is derive(DdsInterface)
--   Listeners, */*         DdsListener and DdsListenerBuilder, with all their events
--   Builtin, Builtin/*     BuiltinSamples, and the properties of a participant
--   Readers, Readers/*     ReaderBuilder, data_reader_listener, the reads into a SampleBuffer
--   Writers, Writers/*     WriterBuilder, Loaned, is_reader_absent
--   Sertype, Sertype/*     SerType, its table, the hash, and the serialization for shared memory
--   Status, Status/*       DdsStatus and the results of dds_api.rs
--   Bench, Bench/*         cases and messages; Boundary, Latency, Subscriber, Publisher, Runner
-- A function has the name of the source's; the module before it tells the struct. A file named
-- Examples holds concrete values at which the theorems are applied.
--
-- How the source is read. A byte, a size and an instant are numbers; a hash map is an association
-- list, newest entry first; a pointer is an address, and the object behind it is passed where it is
-- used; what the source locks is one step; a panic is a value. Fuel stands for the loop of read_exact,
-- where one unit more than the bytes that are asked for is enough, and for the depth of the recursion
-- through the fields of a type, where one unit more than the types is enough, and for the loops of
-- find_boundary_payload, where four more than the binary logarithm of the boundary are; all are part
-- of the theorems. Counters of 64 and 32 bits wrap as in the source; the generation of the watchdog is not
-- taken to wrap, and the last instant that the platform can represent is a parameter. Lengths and
-- offsets of the serdata functions are those of buffers in memory, so their sums are in range.
--
-- Of the parser of the derive macros a value holds what its accessors return. A closure is a function
-- of the world that it captures; what the C library answers to a call is an argument. On an event the C
-- library calls what `register_callbacks` has registered with its listener, with the listener's argument,
-- and nothing else. A poll of a reader's future holds no lock from one statement to the next, so each
-- statement is a step, between which samples arrive and callbacks run. The sums of messages and of bytes
-- that the benchmark counts are not taken to overflow; the law of its codec, on which the search for a
-- payload rests, is that of CDR for payloads below 2^32.
--
-- Not modelled: the wrappers that only pass arguments to the C library (topics, publishers,
-- subscribers, waitsets, and of the readers and writers the plain writes and the status structures),
-- the accessors of the built-in samples, the bindings of cyclonedds-sys, the quoting of tokens in the
-- derive macros, the processes of the benchmark and what it reports of its host,
-- formatting and tracing, and the release of memory other than reference counts, boxes of callbacks,
-- listeners and loans.
mod Common
pub mod Util
pub mod Stats
pub mod Serdata
pub mod MatchWatch
pub mod Error
pub mod Futures
pub mod Registry
pub mod Qos
pub mod InterfaceGen
pub mod Samples
pub mod Sertype
pub mod Status
pub mod Derive
pub mod Listeners
pub mod Bench
pub mod Writers
pub mod Readers
pub mod Builtin
