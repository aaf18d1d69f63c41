-- ===== src/Lib.antt =====
-- A model of librsync, a library for signatures, deltas and patches of files, with theorems on its
-- buffering, its jobs, its command encoder, its checksums and its hash table.
--
-- A job reads from the caller's buffers through the scoop, a queue that keeps what the caller's
-- buffer cannot hold contiguously, and writes through the tube, which holds command bytes and one
-- copy instruction until the output has room. A state function runs only when the tube is empty.
-- The signature job writes the weak and the strong sum of each block of a file, the loading job
-- reads them into a signature in memory, whose hash table finds blocks by their weak sum; the delta
-- job rolls a weak sum along a new file to find blocks of the old one, and writes commands through
-- the encoder. The patch job turns a delta into output, with the basis file behind a callback.
--
-- - Result, Stats: src/librsync.h, the result codes and the counters.
-- - Io: the buffers of src/librsync.h and the scoop and tube fields of src/job.h; all bytes written
--   since the job began are ghost state, and a failed assertion is a field.
-- - Scoop: src/scoop.c and src/scoop.h, rs_scoop_input to rs_scoop_read_rest as scoop_input to
--   scoop_read_rest. Scoop.Queue is the abstract view, one queue of bytes.
-- - Tube: src/tube.c, rs_tube_catchup to rs_tube_write as tube_catchup to tube_write.
-- - Netint: src/netint.c, with 64-bit patterns for rs_long_t.
-- - Command, Prototab: src/command.c, src/command.h, src/prototab.c, src/prototab.h.
-- - Job: src/job.c, the loop of rs_job_work as job_round and job_work, and rs_job_iter as job_iter.
-- - Patch: src/patch.c, one function per state, rs_patch_s_header as patch_s_header and so on.
--   Patch.Spec says what a whole delta means, with no buffers; Patch.Meaning says what a job in the
--   middle of its work will have written.
-- - Emit: src/emit.c; Emit.Decode and Emit.Delta relate it to Patch.Spec.
-- - FileUtil: src/fileutil.c, rs_file_copy_cb.
-- - Rollsum, RabinKarp, Checksum: src/rollsum.c, src/rollsum.h, src/rabinkarp.c, src/rabinkarp.h,
--   src/checksum.c, src/checksum.h, and mix32 of src/hashtable.h. Checksum.Width bounds the sums.
-- - Util: src/util.c, rs_long_ln2 and rs_long_sqrt.
-- - Mdfour: src/mdfour.c and src/mdfour.h, rs_mdfour_begin to rs_mdfour as mdfour_begin to mdfour.
--   Mdfour.Digest has the digest of a whole message.
-- - Hashtable: src/hashtable.h and src/hashtable.c, generic in the entries, NAME_add as
--   hashtable_add and so on. Hashtable.Valid has the invariant, Hashtable.Triangle the order in
--   which a probe visits the buckets, Hashtable.Bloom the filter.
-- - Sumset: src/sumset.c and src/sumset.h, rs_sig_args, rs_signature_init and
--   rs_signature_add_block, whose result says whether its assertion holds. Sumset.Blocks and
--   Sumset.Growth are about the blocks and the room for them. Sumset.Match: rs_build_hash_table and
--   rs_signature_find_match, with each entry as the index of its block.
-- - Mksum: src/mksum.c, rs_sig_s_header as sig_s_header and so on. Mksum.Spec has the bytes of a
--   signature file, with no buffers.
-- - Readsums: src/readsums.c, rs_loadsig_s_magic as loadsig_s_magic and so on. Readsums.Spec says
--   what a signature file means, and Readsums.RoundTrip relates it to Mksum.
-- - Delta: src/delta.c, rs_delta_s_scan as delta_s_scan and so on. Delta.Match is about the search
--   for a block, Delta.Left and Delta.Rounds about the end of the loops, and Delta.Slack,
--   Delta.Ending and Delta.Whole about the delta for no signature.
-- - Text: src/hex.c, src/isprefix.c and rs_strerror of src/msg.c.
-- - Prelude: shared lemmas. Tests: runs on concrete data.
--
-- Numbers are natural numbers, with the wrap-around of size_t, rs_long_t and int written out where
-- the code can reach it; size_t, rs_long_t and uint_fast16_t have 64 bits. The counters of the
-- statistics and the position in the basis are plain numbers. The callback for the basis is a
-- parameter; ReadsBasis states what its documentation promises. BLAKE2, a copy of another project,
-- is a parameter too, of which only the width of its sums is ever assumed, and so is whether calloc
-- has memory.
--
-- Bounds and fuel: the doubling of the scoop has fuel for sizes up to 2^63, and theorems about it
-- assume a length of at most 2^63. The copy loop of the tube has a round for each byte. job_work
-- has as many rounds as it is given and answers none when they run out; work_left counts rounds
-- that are enough. The loops of the checksums have a round for each byte. A probe of the hash table
-- has a round for each bucket, and its order visits all of them. The loops of the delta job have a
-- round for each byte to scan, of which each takes one at least. The table of the blocks doubles,
-- so theorems on loading assume at most 2^28 blocks, where the doubled size is still an int.
-- rs_long_sqrt is meant for values below 2^62, where its squares do not overflow.
--
-- Not modelled: memory that cannot be allocated other than for the hash table, memory that is
-- released, trace output, the MD4 context of the patch job, which nothing reads, the times in the
-- statistics, BLAKE2, base64, and rs_job_drive with the buffers and the whole-file operations.
pub mod Prelude
pub mod Result
pub mod Io
pub mod Scoop
pub mod Tube
pub mod Mdfour
pub mod Mksum
pub mod Netint
pub mod Command
pub mod Prototab
pub mod Readsums
pub mod Stats
pub mod Job
pub mod Patch
pub mod Delta
pub mod Emit
pub mod FileUtil
pub mod Hashtable
pub mod Rollsum
pub mod RabinKarp
pub mod Checksum
pub mod Util
pub mod Sumset
pub mod Text
pub mod Tests
