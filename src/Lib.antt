-- ===== src/Lib.antt =====
-- The parts of the Rust standard library whose logic stands in this repository, modelled as
-- functions on values, with theorems about them.
--
-- Time:
-- * Time/Duration.antt is time/duration.rs: `Duration`, its checked operations and its operators.
-- * Time/Timespec.antt is the arithmetic of sys/unix/time.rs on the seconds and nanoseconds of a
--   clock, which returns a `Duration`.
--
-- Net:
-- * Net.antt is the conversion to network byte order in net/mod.rs. Net/Ipv4.antt and Net/Ipv6.antt
--   are the addresses of net/ip.rs, Net/Display.antt and Net/Decimal.antt how an IPv4 address is
--   written.
-- * Net/Parser.antt is net/parser.rs up to the IPv4 reader; Net/Ipv6Parser.antt is the IPv6 reader
--   with its assertion, and Net/AddrParser.antt, over the proof that this holds, the choice between the
--   two; Net/SocketAddr.antt is the addresses with ports of net/addr.rs and
--   their readers. A reader is a function from a parser, the text and a position, to its result and
--   the parser after it. Below Net/Parser, Refine relates the readers to readers of lists, and Grammar
--   says which texts are meant.
--
-- Io:
-- * Io/Error.antt is `ErrorKind` of io/error.rs, and what a call returns. Io/Writer.antt and
--   Io/Reader.antt are the traits `Write`, `Read` and `Seek` of io/mod.rs as interfaces: the methods
--   of an unknown writer or reader, and the laws that their documentation promises.
-- * Io/Slice.antt is the readers and writers of io/impls.rs for slices and vectors, which fill these
--   interfaces. Io/Cursor.antt is io/cursor.rs. Io/BufWriter.antt, Io/LineWriter.antt and
--   Io/BufReader.antt are the wrappers of io/buffered.rs, over any inner writer or reader; memrchr,
--   which the C library provides, is a parameter of the second.
-- * Io/Provided.antt is the provided methods of io/mod.rs that loop, with `copy` of io/util.rs, and
--   Io/Adapters.antt the readers `Chain` and `Take`. Io/BufRead.antt is the trait `BufRead` and
--   `read_until`, with memchr as a parameter, and Io/BufRead/Chaining.antt the `BufRead` of a `Chain`.
--   Io/Reader/Contract.antt says the contract of `Read` by what a
--   call returns, so that an adapter gives a contract for two.
--
-- Hash:
-- * Hash/Table.antt is collections/hash/table.rs: a `RawTable` with its buckets as a list, and the
--   operations of a bucket as functions of the table and the index. Below it, Walk is about distances
--   around the table, State says when a table is in order, Write and Gap what the operations do to
--   that, and Mask relates the displacement to the arithmetic of the source.
-- * Hash/Map.antt is the Robin Hood hashing of collections/hash/map.rs and Hash/Map/Calls.antt the
--   calls of `HashMap` over it. Hash/Resize.antt is the policy for the capacity, and the calls that
--   change it. The keys come with their comparison and their hasher as a parameter. A capacity is a
--   power of two, so that the mask of the source takes the remainder; the displacement is written as
--   the distance from the ideal bucket, around the end. Allocation succeeds.
--
-- Sync:
-- * Sync/Oneshot.antt is sync/mpsc/oneshot.rs: the packet of a oneshot channel with its sender and its
--   receiver, and the tokens of sync/mpsc/blocking.rs. A thread is the place it has reached; a step is
--   one access to the packet, and Sync/Oneshot/Send.antt and Sync/Oneshot/Receive.antt have the steps
--   of the methods in their order. Sync/Oneshot/Run.antt adds the calls, with the oneshot part of
--   sync/mpsc/mod.rs, and runs a schedule. Atomic accesses are sequentially consistent, as the source
--   asks. A parked thread goes on once its token is woken. Of the stream packet that an upgrade moves
--   to, sync/mpsc/stream.rs, the model has who holds its port: the send to it that Sender::send unwraps
--   fails just where that port was dropped. Below, Table says which states go
--   with which places, Order and Tokens that each step keeps to it.
--
-- Prelude holds what they share: lists measured by native numbers, integers, machine words and calls
-- that may panic. Tests has runs of the models, most at the inputs of the repository's own tests.
--
-- An operation returns what the source returns together with the object after the call. A panic is a
-- value, `panic`, and the object is then the one that unwinding leaves. Machine words are numbers, and
-- unchecked arithmetic wraps, as in a release build; a `usize` has 64 bits, and the target is
-- little-endian.
--
-- Some functions run on fuel, and give `none` when it runs out. The loops of the hash table end at an
-- empty bucket, so fuel of at least the capacity is enough. The loop of `flush_buf` retries an
-- interrupted write; the length of the buffer and the interruptions that the inner writer has left
-- bound its rounds, so fuel above their sum is enough. The loops of
-- Io/Provided.antt and Io/BufRead.antt move a byte or use up an interruption in each round, so fuel
-- above the bytes to move and the interruptions is enough. `sub_timespec` calls
-- itself once with its arguments exchanged, so fuel for two calls is enough.
--
-- Not modelled: formatting for debugging, hashers, the payload of errors, allocation, system calls and
-- the platform layers, and the parts of the library that are still to come: the set of
-- collections/hash/set.rs, the paths of path.rs, sys_common/wtf8.rs, and
-- of sync/ all but the oneshot channel, whose clone and select are left out too.
mod Prelude
pub mod Io
pub mod Net
pub mod Hash
pub mod Sync
pub mod Time
mod Tests
