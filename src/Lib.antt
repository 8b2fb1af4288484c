-- ===== src/Lib.antt =====
-- libtorrent: the parts of a BitTorrent library that compute without the network.
--
-- Bitfield.antt models src/torrent/bitfield.h and bitfield.cc: the chunks that a peer or the client
-- has. A bitfield is a size, a count and an array of bytes that may be missing; `set`, `unset`,
-- `update`, `set_range` and `find_first_set` are the methods of those names (`set_index` and
-- `unset_index` for the single ones).
-- Object.antt models the variant of src/torrent/object.h and object.cc; a map is a list of entries in
-- the order of their keys, as std::map keeps them.
-- Bencode.antt models object_read_bencode_c of src/torrent/object_stream.cc with its parts, and
-- Bencode/Writer.antt object_write_bencode_c: once as an encoder (`encode`), the specification, and
-- once as the code has it, with a buffer that is handed to a write function when it is full. Bencode
-- reads into an Object and writes from one. Bencode/Skip.antt models object_read_bencode_skip_c.
-- Ranges.antt models src/torrent/utils/ranges.h, sets of indices as lists of half-open ranges.
-- Rate.antt models src/torrent/rate.h and rate.cc, a count of bytes over a sliding window.
-- Throttle.antt models src/net/throttle_list.h, throttle_list.cc and throttle_node.h: the quota for
-- bytes that one direction of transfer shares among its nodes. It counts what is used in a Rate.
-- ThrottleInternal.antt models src/net/throttle_internal.h and throttle_internal.cc and src/torrent/throttle.cc: a
-- tree of throttles, each with a ThrottleList, whose root gives out quota at each tick of a timer. The
-- current time is an argument; the timer is the time that Scheduler.antt's ceil_seconds rounds it up to.
-- ChunkStatistics.antt models src/download/chunk_statistics.h and chunk_statistics.cc: how many peers
-- have each chunk. A peer (src/protocol/peer_chunks.h) has a bitfield and a rate, which the
-- statistics write through.
-- PartialQueue.antt models src/utils/partial_queue.h, the queue of chunks by rarity.
-- ChunkSelector.antt models src/download/chunk_selector.h and chunk_selector.cc, with the chunks and
-- priorities of src/torrent/data/download_data.h: it searches a Bitfield within Ranges, and puts what
-- it finds into a PartialQueue by the rarity that ChunkStatistics tells. `find` is `find_chunk`. The numbers
-- that random() returns are arguments.
-- Scheduler.antt models src/torrent/system/scheduler.h and scheduler.cc, the timers of a thread, as a store of
-- handles that entries and the heaps of schedulers point to. std::ranges::push_heap and pop_heap are
-- parameters, with what the standard promises of them (Scheduler/Linked.antt), and so are the slots.
-- Block.antt models src/torrent/data/block.h, block.cc and block_transfer.h: a block of a chunk and the transfers
-- that peers are to make of it, as objects on the heap. A transfer is queued by `insert`, started by
-- `transfering`, and taken off by `release`; `completed` ends them all. The connection that is told of a
-- cancelled transfer is a list of those calls. Block/Life.antt composes the operations.
-- StringManip.antt models src/torrent/utils/string_manip.cc without base64, which OpenSSL computes.
-- Tests.antt and its modules hold concrete runs.
--
-- Numbers: an unsigned machine word is a natural number with its wrap-around written out; a signed
-- accumulation that would overflow is the error `undefined`, and so is an access through a null
-- pointer. An exception is an error value named for its class.
-- Fuel: the reader of bencode gets two rounds for each byte and two more, since each round of a loop
-- and each nested object takes a byte; the string writer gets a round for each byte and one more.
-- The skipping reader gets a round for each byte and one more. The search of a range gets a round
-- for each index and one more, and the loop that pops cached chunks one for each place of the queue and
-- one more. The loop of next_timeout gets a round for each handle on the heap and one more, and that of perform
-- one for each due handle and one more. That this is enough is part of the
-- results.
--
-- Not modelled: sockets, threads, polling, files and memory maps, the HTTP, DNS and cryptographic
-- libraries, and so far the protocol, the trackers, the DHT and the download logic above these parts.
pub mod Common
pub mod Bitfield
pub mod Object
pub mod Bencode
pub mod Ranges
pub mod Rate
pub mod Throttle
pub mod ThrottleInternal
pub mod ChunkStatistics
pub mod PartialQueue
pub mod ChunkSelector
pub mod Scheduler
pub mod Block
pub mod StringManip
mod Tests
