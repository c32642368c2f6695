-- ===== src/Lib.antt =====
-- Distributed Llama: a root and workers run a language model together. The root reads the model,
-- cuts its weights, sends each worker its configuration and its weights, and then all nodes run the
-- same list of steps on every forward pass, exchanging the slices of the pipes over their sockets.
-- In front of that stand the tokenizer, the cache of prompt prefixes and an HTTP server.
--
-- The parts, and the files that model them (paths of the code from the repository's root):
--   Quants: src/nn/nn-quants.hpp and src/nn/nn-quants.cpp. NnFloatType and the sizes of its blocks; the macro
--     SPLIT_THREADS is `split_threads`, the division in dequantizeQ80toF32 `dequantize_range`.
--   Core: src/nn/nn-core.hpp and src/nn/nn-core.cpp. Sizes (getBytes, size2D), Pointers, Config (the structs
--     that describe a network and a node), OpQuant (getOpQuantType), Slices (the slicers) and Split
--     (splitRowMatmulWeight and splitColMatmulWeight, on buffers of bytes); Builder has the classes of
--     src/nn/nn-config-builder.hpp.
--   Cache: src/nn/nn-cache.hpp and src/nn/nn-cache.cpp. NnPrefixCacheManager is a record of that name: the
--     trie, the slots of the device, the records of the database, the two counters and the writes
--     made to the database. Each method is the function of its name in Cache/Manager.
--   Network: src/nn/nn-network.cpp. Stream has bytes that come and bytes that are sent, Sockets the loops
--     of writeSocket and tryReadSocket on what the system calls give; Wire and Config the messages
--     of NnRootConfigWriter and NnWorkerConfigReader; Weights and Loader those of NnRootWeightLoader
--     and NnWorkerWeightReader; Sync the sockets of serve and connect (where
--     the order in which workers connect is an argument), and syncWithRoot,
--     syncNodeSlices and NnNetworkNodeSynchronizer::sync as the calls that each thread makes.
--   Tokenizer: src/tokenizer.cpp. Vocab has the searches in the vocabulary, Encode Tokenizer::encode, and
--     EosDetector the class of that name.
--   Executor: src/nn/nn-executor.cpp. The settings of a pass, the steps that the constructor of
--     NnExecutor lists, NnExecutor::loadWeight, and the calls that each thread makes in a forward pass.
--   Database: src/rocksdb-cache.cpp. Keys has buildKey and parseKey.
--   Cpu: src/nn/nn-cpu.cpp and the end of src/nn/nn-cpu-ops.cpp. Pointers has NnCpuDevice::resolvePointer, where
--     a pointer is a place in a named pipe or buffer; Kernels the tables getCpuOpForward and
--     getCpuOpForwardInit and the init functions, with the writes of fullfillRopeLlama3Cache; Segments NnCpuDevice::createSegment and
--     NnCpuDeviceSegment::loadWeight; SyncCache NnCpuDeviceSegment::syncCache, one thread at a time. The flags
--     of the buffers are the state of the device.
--   Llm: src/llm.cpp. Header has loadLlmHeader, on the bytes of the file; Parts has the slices and the pipes of buildLlmNet, Buffers the buffers of a node,
--     Layers the segments, Network the loops around them; OpConfigs the bytes of the configurations
--     of the operations. The network is run on the device of Cpu, as runInferenceApp does it.
--   App: src/app.cpp. Packet has LlmControlPacket as it lies on the wire, Root the methods of
--     RootLlmInference, Worker WorkerLlmInference and the loop of runWorkerApp; Session runs a
--     sequence of calls on the root.
-- Each of them has a module Examples, in which the theorems are applied to concrete data. Base has
-- what they share: tests, lists, faults as results, buffers of bytes, counted loops, strings.
--
-- How the code is read: an NnUint is a number below 2 ^ 32 and an NnSize one below 2 ^ 64, with the
-- wrap-around written out where a product or a sum can reach it. `assert`, a thrown exception and an
-- access outside a buffer or an array are faults of `Result`. A struct that is sent as it lies in
-- memory has its padding, of any value, in the message. A name is its array of characters, with the
-- terminator; a piece of the vocabulary or of the detector is the characters before it.
--
-- Fuel: the loop of NnWorkerWeightReader::read takes at least four bytes a turn, so one more turn than
-- the input has bytes is enough; the merging loop of the encoder makes one token of two, so one more
-- turn than there are tokens is enough, and that is what `encode` gives it.
--
-- Parameters: the trie (src/nn/tsl, a library that the repository brings along) is a record of its
-- operations and of what they document, Cache/Trie, and Cache/Table is one such record; the scores of
-- the vocabulary are floats, of which only a comparison is used; the executor that takes a weight and
-- the device that makes a segment are functions, where Executor stands alone. In App the executor's
-- forward is a function on the execution, and the bytes of a number made a float another, as in Llm/Header.
--
-- Not modelled: the kernels on floats (in src/nn/nn-cpu-ops.cpp, the quantizers), the Vulkan device (src/nn/nn-vulkan.cpp), the
-- records in RocksDB, the reading of the weights from the model file (loadLlmNetWeight, src/mmap.hpp), the sampler, the decoder
-- and the chat templates, the command line and the HTTP server; setting up sockets. Threads appear as
-- the parts of the work that they take, not as interleavings.
pub mod Base
pub mod Quants
pub mod Core
pub mod Cache
pub mod Network
pub mod Tokenizer
pub mod Executor
pub mod Database
pub mod Cpu
pub mod Llm
pub mod App
