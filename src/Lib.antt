-- ===== src/Lib.antt =====
-- ZenovOS: models of the kernel and of its host tools, with the theorems that make them correct.
--
-- The kernel is one translation unit that includes the files of kernel/parts. Its parts are the
-- process objects and their handles, the scheduler, the storage from the block devices to the file
-- system ZenovFS, the security policies, the package manager, and the desktop. Programs under tools
-- build the images that the kernel reads. Each model is a translation of the code into functions:
-- globals are a record that the functions take and return, a null pointer is `none`, a machine word is
-- a natural number with its wrap-around written out, and what the code calls and this repository does
-- not hold (hardware, a device driver) is an argument.
--
-- Files and the code that they model:
-- - Prelude: shared names, Boolean tests, lists over numbers, machine words, laws of the bit
--   operations, signed integers.
-- - Process/Handles: kernel/parts/process_handles.inc. A table of eight handles; a handle word holds
--   the index and a 16-bit generation. `allocate`, `resolve`, `close`, `active_count`, `encode` and
--   `decode` have the names of the code.
-- - Process/Lifecycle: kernel/parts/process_lifecycle.inc. Sixteen process objects with references,
--   termination, reaping and reparenting; `Manager` holds the file's four globals. The handle tables
--   name objects by the keys of this manager.
-- - Runtime/Div64: kernel/parts/div64_runtime.inc, the division of 64-bit words that the compiler
--   calls; `udivmoddi4` is `__udivmoddi4`, and so on. A remainder pointer is a second result.
-- - Scheduler/Policy: kernel/parts/scheduler_policy.inc. Priorities, time slices, aging, and the
--   selection of the next task.
-- - Storage/BlockResult, Storage/FsResult: kernel/parts/storage_block_result.inc and
--   storage_fs_result.inc. Storage/Failures adds the translation of ATA results from
--   kernel/parts/storage_ata_deadline_core.inc.
-- - Storage/Device: kernel/parts/storage_block_device.inc, for any driver: a driver is a pair of
--   functions on a state of its own. Storage/Requests has lists of requests.
-- - Storage/AtaPolicy, Storage/Deadlines: kernel/parts/storage_ata_policy.inc and
--   storage_ata_recovery_policy.inc.
-- - Storage/LivePacker: `lzss_compress` of tools/live_image_pack.cpp, which compresses the image that
--   is built into the kernel. Storage/LivePacker/Chunks has the rest: `main` splits the image into
--   chunks and writes the sparse pack, here `pack_image`; the output file is the record `Image`.
-- - Storage/LivePack: the first part of kernel/parts/storage_live_image.inc, which unpacks that image,
--   checks it and reads sectors from it.
-- - Storage/LiveOverlay, Storage/LiveDevice: the rest of that file, the sectors that were written since
--   the start, and the initialization, which makes all of it a block device of Storage/Device.
-- - Prelude/Bytes, Prelude/Result: texts as lists of bytes with the functions of the C++ library that
--   the tools use, and code that throws.
-- - Package/Common: the texts and the little-endian numbers of tools/zenpkg/common.hpp.
-- - Package/Sha256: the class of tools/zenpkg/sha256.hpp; its fields are the record `Sha256`, a
--   method takes the record and returns it.
-- - Package/Manifest, Package/Manifest/Validate, Package/Versions: tools/zenpkg/manifest.hpp. The map of
--   pointers to the scalar fields is a list of keys with writes.
-- - Package/Archive, Package/Archive/Index: tools/zenpkg/archive.hpp, the bytes of a package and the
--   index of a directory, which is a list of entries. The archive uses the manifest and the digest.
-- - Audit/Digest, Audit/Format: tools/zenov_audit_format.hpp, the digest of the audit journal, the
--   hashes of its records and `verify`. The code has a digest of its own; the eight words of its state
--   are those of Package/Sha256.
-- - Universe/Capability: tools/zenuniverse/capability.hpp, the known capabilities and the alternatives of
--   them that a descriptor may name.
-- - Universe/Common, Universe/Digest: tools/zenuniverse/common.hpp, the tests on texts and the digest,
--   which is its own code too.
-- - Universe/Values, Universe/Descriptor: tools/zenuniverse/descriptor.hpp. Universe/Descriptor has the
--   record and `parse_descriptor`, Descriptor/Validate and Descriptor/Platforms `validate_descriptor`,
--   Descriptor/Canonical `canonical` and `version_less`, Descriptor/Directory `load_directory`, on a list
--   of the entries of a directory.
-- - Universe/HostProfile, Universe/Artifact: tools/zenuniverse/host_profile.hpp and
--   artifact_manifest.hpp; the digest of a file is an argument.
-- - Universe/Resolver: tools/zenuniverse/resolver.hpp. A pointer to a descriptor is its index in the
--   records; `active`, `emitted` and the plan, which the code passes by reference, are the record
--   `Context`. Resolver/Resolve has `resolve_capability` and `resolve_alternative`, Resolver/Plans the
--   plans, Resolver/Catalog `compile_catalog`. The other modules there hold the proofs.
--
-- Bounds and fuel: the decompressor's outer loop runs on a fuel of one more than the compressed bytes,
-- since each round takes one; the compressor's on the length of the input, since each group moves on;
-- the split into chunks on the length of the
-- image, since each chunk takes a byte; the search for a chunk on the number of chunks, since the interval shrinks. The other loops are
-- structural, but for the loop of the digest's `update`, which runs on the length of its input, since
-- each round takes a byte, and the decimal digits of a 64-bit number, twenty at most. Hashes and
-- chains of the compressor are functions, an int32_t entry that would be negative is `none`. The calls
-- of `resolve_capability` run on a fuel of 54: the capabilities that are being resolved are distinct,
-- and 53 are known. The positions of the decompressor, which are uint32_t in the code, are numbers: at
-- the sizes that the static_asserts of storage_live_image.inc allow (`MeetsAsserts`) they do not wrap.
--
-- Not modelled: port and memory-mapped access, assembly, drawing and text output, the serial log, the
-- addresses of the supervisor layout, and the parts of the kernel and the tools that the list above
-- does not name, among them ZenovFS, memory management, the context switch, the calculator, the
-- package manager and the security policies.
pub mod Audit
pub mod Package
pub mod Prelude
pub mod Process
pub mod Runtime
pub mod Scheduler
pub mod Storage
pub mod Universe
