-- ===== src/Lib.antt =====
-- Thanos, a set of components that make a highly available Prometheus setup with long-term storage:
-- the parts of its Go code that carry logic of their own, modelled as functions, with theorems.
--
-- The parts and their files:
-- * Prelude, Sorted: shared helpers; total orders, and the merge of sorted lists.
-- * Strutil (pkg/strutil/merge.go): the merge of sorted string slices.
-- * Pool (pkg/pool/pool.go): the bucketed pool of byte slices that bounds the memory of queries.
-- * Storepb (pkg/store/storepb/custom.go): the order of chunks, and the series sets that merge
--   the answers of several stores into one.
-- * Labelpb (pkg/store/labelpb/label.go): the order, the union and the hash of label sets.
-- * Store (pkg/store): the store gateway. Partitioner joins byte ranges, BlockSet chooses the blocks
--   for a query by time and resolution (both pkg/store/bucket.go), PostingsCodec is the compressed
--   form of postings in the cache (pkg/store/postings_codec.go), Limiter counts what a query
--   touches (pkg/store/limiter.go), BigEndian is the postings of an index (pkg/store/bucket.go).
-- * Receive (pkg/receive/hashring.go, pkg/receive/handler.go, pkg/errutil/multierror.go): the receiver
--   of remote-written series: Errors, Hashring (which uses the hash of Labelpb as a parameter),
--   Handler (the sending to one endpoint and the loop that collects the replies) and Forward (the
--   whole request: its check, its split by endpoint, the replication, the answer).
-- * Cache (pkg/store/cache, pkg/cache/inmemory.go): the caches. Lru is the interface of the LRU of
--   golang-lru with its laws; Sized is the accounting of sizes that InMemoryIndexCache does over it,
--   Index the cache of postings and series that stands on Sized, Ttl the cache whose entries expire
--   (pkg/cache/inmemory.go), and Subranges the reading of a range of an object through cached
--   subranges (pkg/store/cache/caching_bucket.go).
-- * Block (pkg/block): Metas (metadata/meta.go) is the metadata of blocks, Filters the filters by
--   time, labels and age, Marks the deletion marks and their filter (metadata/markers.go), Duplicates
--   the filter of blocks that others cover (node.go), Replicas the remover of replica labels, Fetcher
--   the fetch that loads the metadata and applies these (all fetcher.go), and Deletion the marking and
--   the deletion of a block (block.go).
-- * Compact (pkg/compact): Planner, which chooses the blocks of the next compaction, and SizeFilter,
--   which plans again until the indexes of the plan are small enough (both planner.go), and Cleaning,
--   which marks the blocks that are covered or too old (compact.go, retention.go) and deletes those
--   that are marked, or whose upload was given up (blocks_cleaner.go, clean.go). Cleaning stands on
--   the deletion of Block.
-- * Queryfrontend (pkg/queryfrontend/split_by_interval.go): the split of a query by interval.
-- * Dedup (pkg/dedup/iter.go): the deduplication of replicas by a querier: Series gathers the replicas
--   of a series, Iter merges the samples of two of them.
--
-- Numbers are natural numbers; a `uint64` wraps by `% 2 ^ 64` where the code adds. Loops are
-- recursions on a list, or take fuel with a theorem that it is enough: the loop that makes room in a
-- cache has one step for each entry and one more, the loop that raises the limit of the ranges to
-- fetch has the size of the object and one more, and the split of a query its length in milliseconds
-- and one more. A mutated object is a record that the function
-- returns anew. Logging, metrics, tracing and locks are left out: a method that holds the lock of its
-- object throughout is one step. The goroutines of the receiver are one step for each endpoint, and
-- the order in which their replies arrive is a parameter; the goroutines of the fetcher and of the
-- filter of marks take the blocks in the order of the map. What is outside the repository (xxHash,
-- the dialling and calling of peers, the local storage, the bucket, the LRU, relabelling) is a
-- parameter as well, and so are the results of floating-point arithmetic, but for the ages of
-- deletion marks, which are compared exactly. The times of blocks are
-- integers without a bound.
--
-- Not modelled: the other operations of the caching bucket (Iter, Exists, Get, Attributes), the upload
-- and download of blocks, the compaction of groups and the downsampling, the index header, the
-- queriers and their API, the rule manager, the object stores, and the commands.
pub mod Prelude
pub mod Sorted
pub mod Strutil
pub mod Pool
pub mod Labelpb
pub mod Storepb
pub mod Store
pub mod Receive
pub mod Compact
pub mod Queryfrontend
pub mod Dedup
pub mod Cache
pub mod Block
