-- ===== src/Lib.antt =====
-- Addictol, an F4SE plugin that fixes and speeds up Fallout 4: its module manager, its zlib
-- replacement, its settings, its telemetry of bursts and operations, and an allocator of small
-- blocks.
--
-- The plugin registers modules with ModuleManager. At each stage of the game's start (F4SE's
-- messages) the manager asks the modules of that stage whether they can run, installs them, and
-- keeps an outcome for each and a tally of the outcomes. A module that patches code may ask for
-- ModuleDefender, which keeps a copy of the image's sections and writes it back when the
-- installation fails. One module replaces the game's inflate by OwnedInflate: a stream is either
-- decoded at once by a whole decoder or by a streaming decoder, behind a mirror that hides from
-- the decoder that a byte of input is held back. Modules are turned on by settings, which stand
-- in a registry; the settings page edits a draft of them, and a TOML document keeps them.
--
-- Base holds what the parts share: native numbers, byte strings and their order, machine words,
-- lists, and std::map as an association list in the order of its keys.
--
-- Outcome: Addictol/Include/Core/AdModuleOutcome.h, RecordModuleOutcome and TallyModuleOutcomes.
-- Manager: Addictol/Source/Core/AdModuleManager.cpp and Addictol/Source/Core/AdModule.cpp. The
-- manager
--   is a record; Register, Unregister and RecordOutcome are functions on it.
--   Manager/Snapshots: Addictol/Source/Core/AdModuleDefender.cpp.
--   Manager/Runs: the loops of QueryLoadAll, InstallLoadAll and their kin.
--   Manager/Calls: the manager's calls as one type, and sequences of them.
-- Zlib: Addictol/Include/Zlib/AdZlibInflate.h, the stream and the result codes.
--   Zlib/Contract: the bytes of the game's inflate in the same header. Zlib/Backend: the table
--   of backends
--   of Addictol/Include/Zlib/AdZlibBackend.h.
--   Zlib/Mirror: InflateStreamMirror, with Invoke in two parts, its guard and the rest.
--   Zlib/Owned: Addictol/Include/Zlib/AdOwnedInflate.h, the policy; Zlib/Owned/Entries and
--   Zlib/Owned/Controls: the entry points, over streams and states at addresses.
-- Settings: Addictol/Include/Core/Settings/AdSetting.h, values and what a setting takes.
--   Settings/Registry, Settings/Names: Addictol/Source/Core/Settings/AdSetting.cpp.
--   Settings/Normal, Settings/Drafts: Addictol/Source/Core/Settings/AdSettingsModel.cpp, and what
--   Addictol/Source/Menu/AdMenuSettings.cpp does to a draft.
--   Settings/Document: Addictol/Source/Core/Settings/AdSettingPersistence.cpp, the update of the
--   sections that settings own, and the lines of the document.
-- Telemetry: Addictol/Include/Telemetry/AdTelemetry.h, buckets, and in Telemetry/Burst the ring of
--   bursts; Telemetry/Burst/Runs: sequences of its calls.
--   Telemetry/Profile: Addictol/Source/Telemetry/AdOperationProfile.cpp, a source that samples
--   operations: Begin gives a token, End turns it into a record in one of the source's shards, and
--   the reader drains the records into buckets. A capture counts what became of each operation.
--   Profile/Valid, Profile/Create: the configuration and the constructor. Profile/Sampling:
--   salts and the
--   lanes of threads. Profile/Producer, Profile/Reader, Profile/Capture: the calls, each as one
--   step, where
--   a failed try_lock is an input; Profile/Runs: sequences of them. Profile/Pins: one capture
--   again, between
--   threads that interleave at single loads and stores, as if sequentially consistent, where
--   the stores of ResetCaptureState are one step and all mutexes are taken and released in one
--   step; each operation there is a thread of its own.
-- Memory/Visper: Addictol/Source/Memory/AdVisperMemoryAllocator.cpp. Pages of blocks with a
-- stack of free
--   ones (Visper/Pages), heaps of pages (Visper/Heaps), the manager (Visper/Managers) and
--   Realloc. Headers of
--   blocks are kept beside the bytes, so that a write past a block does not change one. A page's
--   block size is not negative.
--
-- Parameters. A module's virtual functions are a record of functions on a world that the model does
-- not look into, and may throw. libdeflate's checksums, the native decoders and the whole decoder are
-- records of functions. What VirtualAlloc and _aligned_malloc give is an input of each
-- allocation, and
-- QpcTicksToNanosecondsSaturated, which computes on long double, a function. The values of
-- toml11 are a type. `double` is a record of its comparisons
-- and casts. What a theorem needs of them is a named predicate: IsRunning for a checksum, IsDouble
-- for the casts, IsWordStream for a stream that a decoder leaves.
--
-- Numbers are natural numbers; 32-bit and 64-bit counters wrap by `% 2 ^ w` where the code's do.
-- No definition runs on fuel: each loop is over a list or a count.
--
-- Not modelled: locks, and atomics outside Profile/Pins; logging, the profiling instance of the zlib
-- template, the hub of the telemetry, the engine patches, the menus, the other heaps, the totals of
-- memory and Release of Visper, failures to allocate in the constructor of an operation profile, and
-- the vendored libraries. The calls of one object are
-- taken one after the other: the manager's under its mutex, the draft's by the thread of the menu;
-- for the ring of bursts, where a producer and a consumer meet, this is a simplification.
pub mod Base
pub mod Outcome
pub mod Manager
pub mod Memory
pub mod Zlib
pub mod Settings
pub mod Telemetry
