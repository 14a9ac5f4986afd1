-- ===== src/Lib.antt =====
-- cmafly: an on-demand HLS / CMAF origin for MP4 archives.
--
-- The packager (crates/packager) reads a source MP4 and writes an index of it once; the server
-- (crates/server) answers requests from the index and from byte ranges of the source; the indexer
-- (crates/indexer) is the command that makes the index. This library models the packager: how the bytes of
-- the source become the rows of the two tracks, how these rows are cut into segments, the index that keeps
-- them, and the bytes that are served from it. Of the server it models the names and the bodies.
--
--   - Demux/Source.antt: crates/packager/src/read_at.rs (ReadAt, read_at_bytes) and read_exact of
--     demux/reader.rs. A reader is a function of an offset and a buffer length; `Reads src reader` is
--     what the loops of the code expect of it: some of the bytes that are there, none only at the end or
--     for an empty buffer. A read may stop short in the middle of the source, where the doc of the trait
--     has callers take a short read for the last.
--   - Demux/Boxes.antt: BoxHeader and BoxIter of demux/reader.rs. The iterator is the reader, the
--     cursor and the end; `next_header` gives its result and the cursor that it leaves.
--     Demux/Boxes/Each.antt: the loops over a BoxIter, with the variables of the loop as a state and
--     the body as a function.
--   - Demux/Moov.antt and its children: demux/moov.rs. The parent holds parse_top_level and check_ftyp,
--     Track holds parse_trak and what it reads, Stbl holds parse_stbl, SampleEntry holds
--     parse_stsd_entry, and Classify holds classify_tracks. Each loop has a record of its variables and
--     a function for its body.
--   - Demux/Locations.antt: ByteRange, ChunkOffsets and SampleTableLocs of demux/moov.rs.
--   - Demux/Sample.antt, Demux/SampleTable.antt and its children: demux/sample_table.rs. Tables holds
--     the readers of the atoms (read_stsz to read_chunk_offsets), Expand holds expand_run_table and
--     expand_stsc, and the parent holds walk, whose three loops are mark_sync, walk_chunk and
--     walk_chunks. The columns that walk fills are the record Columns.
--   - Index/Format.antt: the records and constants of index/format.rs.
--   - Index/View.antt and its children: index/view.rs. The parent holds open, Directory holds its tests
--     on the section directory and the slices of the sections (Directory/Valid is what the tests ask
--     for), Meta holds the parsers of the track sections and Tables those of the sample and segment
--     tables. The view is the record IndexView, whose slices are lists and whose accessors are its fields.
--   - Index/Builder.antt and its children: index/builder.rs. Build holds build with render_playlist and the
--     loop that measures the segments, Hash holds blake3_of_source and read_byte_range, Counting the
--     counting sink, Encode the payloads of the sections and Serialise the image of the file. Measured is
--     about the results of render_playlist and of the loop.
--   - Index/RoundTrip.antt and its children: the lemmas on what the view reads in an image of the
--     builder. Complete is about the size of the image.
--   - Segment/Splitter.antt and its children: segment/splitter.rs. The loop variables of split are the
--     record State, a round is split_step, and the end of a segment in it is close_segment.
--   - Sink.antt: the interface of Write and Seek, a writer that holds the bytes it was given and a
--     position. Sink/Cursor.antt is the buffer of the standard library, and Index/Builder/Counting.antt
--     is CountingSink of index/builder.rs.
--   - Fmp4/Writer.antt: code that writes, as a monad over the writer; Fmp4/Writer/Appends.antt: its logic,
--     in which `Appends` is the triple of code that adds bytes at the end.
--   - Fmp4/Boxes.antt and its children: fmp4/boxes.rs. `in_box` is a box from open to finish; Holes has
--     the places inside boxes that are written later.
--   - Fmp4/Media.antt and its children: fmp4/media.rs. Samples holds the numbers about the samples, Copy
--     stream_sample, Fragment the boxes of the moof, and the parent write_media_segment. Bytes describes
--     a segment box by box, without the writer; Written relates the two.
--   - Fmp4/Init.antt and its children: fmp4/init.rs. Boxes holds the boxes without other boxes in them, the
--     parent the boxes around them; Bytes describes the segment, and Written relates the two.
--   - Playlist.antt and its children: playlist/m3u8.rs. Ticks holds the durations of the segments and the
--     target duration, Target what it is, and Written describes the lines of a playlist.
--   - Server/SegmentName.antt and Server/PermitBody.antt: parse_segment_idx and PermitBody of
--     crates/server/src/handlers.rs. The polls of a body are the relation Polls.
--   - Error.antt: error.rs and the Result of the model, whose bind is the ? operator.
--   - Prelude.antt: lists over native numbers, Boolean tests and the checked operations on machine
--     words.
--
-- The parser of the movie header gives the locations of the tables to the walker. The splitter takes the
-- rows of the walker, one list for each track, and makes the rows of the segment table. The builder
-- writes both tables into the index, which the view opens in place. The writers of segments take the rows
-- from a view and the samples from the source; the builder runs them once to measure the segments, and
-- the server for each request.
--
-- What stands outside the source is a parameter. ByteOrder.antt is the interface of the byteorder
-- crate: big-endian words, written and read back. `read_i32` of that crate is the signed reading of the
-- same 32 bits. NativeEndian.antt is the interface of to_ne_bytes and of the memory of a `repr(C)` row:
-- words in the byte order of the machine, which the rows of an index are written in. The memory address
-- of the bytes is an argument of open_index, since the view tests the alignment of the rows. Playlist.antt has the record Format for the formats of the standard library, and
-- Index/Builder/Hash.antt the record Hasher for the blake3 crate. The splitter uses three operations of f64, the record Float64: is the nominal duration
-- finite, is it positive, and its product with the timescale, rounded up and cast to u64.
--
-- Integers are natural numbers. The checked operations of the source compare with 2^32 or 2^64 as the
-- source does (checked_add, checked_mul, try_from); usize has 64 bits. The sums of box and read
-- offsets, which the source adds without a check, are exact numbers here: they stay below 2^64 where
-- the range ends below 2^64 and the box lies in it. An allocation fails in the model only above
-- isize::MAX bytes; a host out of memory is not modelled.
--
-- Loops over lists are structural recursion. The other loops run on fuel: read_exact has as much as the
-- bytes it is asked for, since a round that goes on fills one at least, and stream_sample as much as the
-- size of the sample, and blake3_of_source as much as the source; next_header and the loops over boxes (each_box, find_box) have as much as the
-- bytes of their range, since a box takes eight at least.
-- The error out_of_fuel stands for the end of fuel. The error panicked stands for a failed assert! and for an allocation above isize::MAX bytes.
--
-- Not modelled: the rest of the server, and the indexer. Of an
-- error of the operating system only the kind is kept.
pub mod Prelude
pub mod Error
pub mod ByteOrder
pub mod NativeEndian
pub mod Sink
pub mod Fmp4
pub mod Playlist
pub mod Server
pub mod Demux
pub mod Index
pub mod Segment
