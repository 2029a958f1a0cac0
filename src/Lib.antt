-- ===== src/Lib.antt =====
-- mykafka: a broker that keeps topics as partitions, and each partition as a commit log on disk.
--
-- The parts and the files that model them:
--   Error      the error codes of protos/mykafka.proto; outcomes of calls and calls on an object
--   Env        which system calls of an operation fail
--   Utils      roundDownToMultiple of src/utils/Utils.cc
--   Names      getIndexFilename and getLogFilename of src/commitlog/Segment.cc, detectBaseOffset of
--              src/commitlog/Partition.cc; Names/Numbers has lemmas on strtoll, Names/Offsets on
--              the names that printOffset makes
--   Index      the class Index of src/commitlog/Index.cc: the mapped file of offsets and positions.
--              Index/Entries has the entries that it holds, Index/Opening what opening makes of a file,
--              and Index/Bounds the memory that calls touch
--   Segment    the class Segment of src/commitlog/Segment.cc, one child for the state (State), open
--              and reconstructIndexAndGetLastOffset (Recover), write (Write), findEntry, readAt and
--              the accessors (Read), close and deleteSegment (Close). Layout describes a log and its
--              index by the list of the messages, Holds is the invariant, and Sizes, Search, Reads,
--              Recovery, Opened, Closing, Termination and Failures hold proofs
--   Partition  the class Partition of src/commitlog/Partition.cc: the object and its directory
--              (State), cleanOldSegments (Clean), open (Open), write (Write), findSegment, readAt and
--              the accessors (Read), close and deletePartition (Close). Chunks describes the segments
--              by lists of messages; Search, Linear, Lookup and Reads prove the reads, Ends,
--              Sizes, Writes, History, Appends and Steady the writes, Opens and Fresh the opening, Tidy
--              and Reopening the opening of what was closed, Deletes, Thinned and Cleaning the cleaning,
--              and Closed what a closed and a cleaned partition answer
--   Config     the class ConfigManager of src/utils/ConfigManager.cc: names of files (Keys), the table
--              and the directory (State), create and open (Open), get, update and updateCommitOffset
--              (Table), close and remove (Close), load (Load). Bytes, Holds, Sessions,
--              Parsing and Others hold proofs
--   Broker     the class Broker of src/broker/Broker.cc: the table (State), createPartition and load
--              (Create), deletePartition, deleteTopic and close (Delete), sendMessage, getMessage and
--              getOffsets (Messages), getTopicInfo (Info). Delivery, Log, Creation,
--              Offsets, Deletion and Restart have proofs
--   Network    the directory src/network. Requests has the calls of protos/mykafka.proto and `process`
--              of each service, Server the objects of RpcService, the round of handleRpcs of
--              RpcServer, and specificHandle of BrokerServer, Steps the runs of a server, Client the
--              class Client and its macro METHOD_IMPL, Calls its methods. Live, Handled and Invariant
--              prove that gRPC knows live objects alone, Serving and Ready what a running server does.
--              Delivers is a network that loses calls and answers, Late one that serves calls late
--              too, Retry and Copies are on a call of the client over them
--   Tools      the programs: Consumer (src/main-consumer.cc), Producer (src/main-producer.cc), Ctl
--              (src/main-ctl.cc) and Serve (src/main-server.cc), with the macros of
--              src/ClientHelpers.hh (Lines). Named, Within, Consuming, Receiving, Orders, Producing,
--              Creating and EndToEnd have proofs
--   Tests      runs of the model, and each result at an input
--   Prelude    the names shared by all files; Prelude/Int has the signed integers and Prelude/Bytes
--              the bytes of integers and the memory of a mapped file
--
-- How the model corresponds to the code. A class is a record with the fields of the class, a method
-- a function from the object to its outcome and the object behind it. An object owns the file that
-- it names, so the bytes on disk are a field of the object: no other object opens the file
-- meanwhile. A file that is mapped with MAP_SHARED and its memory are the same bytes. int64_t and
-- int32_t are integers; a conversion to int32_t wraps, while signed overflow, which C++ leaves
-- undefined, does not occur: sums are exact, and results that need a bound on them state it. Memory
-- is read and written byte by byte, in little-endian order. An access outside the mapping is the
-- outcome `fault`. A system call can fail: an operation takes an environment that tells for each of
-- its calls whether it fails, and for ::write how many bytes it wrote. Error messages are left out,
-- codes are kept. The time is an argument. A partition has the files of its directory that no
-- segment has open, and the pointer to the active segment is the last of its segments, or null.
--
-- The loop that rebuilds the index takes as many rounds as the index has bytes, and one more; each
-- round adds an entry, so that is enough. The binary search takes as many as the segment has
-- entries, and three more; that of a partition as many as it has segments, and two more.
--
-- The configuration files are found by their names, so two keys with one name share a file. The
-- order of the table of configurations, which is unspecified, is that of a list. What the file
-- system makes of a name, which it cuts at a NUL and reads as a path, is modelled where load reads
-- the entries of the directory; all else takes a name for the file, so topics with a slash or a NUL
-- are outside the model but for that. A running server is a step relation: gRPC has a list of
-- operations under way, the waits for a call and the sendings of a response, each tagged with the
-- address of an object, and tells the end of any of them next. The threads take turns by whole
-- events. Addresses are never used again. The client reaches the broker through a link, two
-- functions on a world that stand for the stub and the channel; what is assumed of a link is what
-- gRPC documents, and is a hypothesis. A call that ends well was served once, before it ended; one
-- that ends with an error, of a lost answer or a deadline, is under way from then on, until it is
-- served or given up, and later calls may overtake it. The limit of the size of a message, 4 MB by
-- default, is a limit on the lengths of topics and payloads. The loop of METHOD_IMPL and that of
-- the consumer have no bound in the code: they take a number of attempts and of rounds, and results
-- say which numbers are enough. A broker has the directories of the partitions that are not in its
-- table. load stands for a call on an empty table, which is how the server calls it.
--
-- Not modelled: the parsing of the arguments by boost and the wording of what is printed; the
-- benchmarks and the unit tests; the destructor of RpcServer; the count of open descriptors; msync
-- and syncfs have no effect beyond their error; the file offset of the descriptor for reading is
-- set by each read and is no field; the locks of the classes, since every public method of a
-- partition or a broker takes its lock for the whole call, but for getOffsets, which frees it
-- before it asks for the commit offset. Response objects are fresh, as the services make them:
-- getMessage leaves the payload of a response as it was if there is no message, and the model has
-- it empty.
pub mod Prelude
pub mod Error
pub mod Env
pub mod Utils
pub mod Names
pub mod Index
pub mod Segment
pub mod Partition
pub mod Config
pub mod Broker
pub mod Network
pub mod Tools
mod Tests
