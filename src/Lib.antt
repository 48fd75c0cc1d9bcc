-- ===== src/Lib.antt =====
-- Verification of the hash ring load balancer (skel/).
--
-- Documents are stored on servers that stand on a ring in the order of their hashes. The parts:
--   Base          shared names, native lists, runs that may fault, laws of `bit_xor`
--   Hash          hash_uint and hash_string of skel/utils.c
--   Request       request types and their keywords (skel/utils.c, skel/constants.h)
--   ArrayList     the array list that holds the ring (skel/arraylist.c): a buffer whose slots may be
--                 uninitialised, its growth and shrinking, and the three binary searches
--   LinkedList    the singly linked list by value (skel/linked_list.c)
--   Queue         the task queue (skel/queue.c)
--   HashMap       the chained hash map (skel/hashmap.c), over an instance `Key` of hash and compare
--   Strings       the string keys that the servers and caches give to their maps
--   DoublyLinkedList  the doubly linked list over explicit nodes: addresses, null, and a memory that
--                 maps addresses to nodes (skel/doubly_linked_list.c)
--   LruCache      the cache of a server (skel/lru_cache.c): the doubly linked list holds the entries,
--                 the hash map leads from a key to the address of its node
--   Server        edits, lookups, the queue of edits and the request handler of a server
--                 (skel/server.c); `Memory` is what the pointers of `struct server` lead to
--   Transfer      transfer_files of skel/server.c, between the memories of two servers, the choice
--                 among replicas by pick_src and pick_dest (Transfer/Pick), and the transfers
--                 among replicas (Transfer/Replicas)
--   Ring          comparators of skel/load_balancer.c and the move test of skel/server.c
--   LoadBalancer  servers that join and leave, and the forwarding of requests
--                 (skel/load_balancer.c)
--   Reader        the reading of requests from a file (skel/main.c)
--   Program       the loop that applies them, and main (skel/main.c)
--
-- A request goes to the owner of its document's hash (LoadBalancer, Ring, ArrayList). The server
-- queues an edit (Queue); any other request first makes the queued edits and then reads (Server),
-- through the cache (LruCache, over DoublyLinkedList and HashMap) and the map of documents (HashMap).
-- When servers join or leave, documents move between memories (Transfer).
--
-- C values: `unsigned int` is a number below 2 ^ 32 with its wrap written out; the `int` of a
-- comparator is an integer; a C string is its list of bytes. An `int` index is a number, with -1
-- only where the code can produce it. `malloc` is taken to succeed. A list has at most 2 ^ 30
-- elements, so that the sum of two indices in a binary search is an `int`. The binary searches run
-- on the fuel `size + 1`, which is proved to be enough, since each round narrows the range.
-- Pointers to data are replaced by the data; giving memory back is modelled only for the nodes of
-- the cache, whose addresses `malloc` does not return again.
--
-- The loop of `solve_queue` has the size of the queue as fuel, since each round pops a task. Texts
-- that a server prints are values with one constructor for each format. Of the buffers of 1000
-- bytes that they are printed into, the one for a content is modelled: a lookup of a longer
-- content is a fault. Texts that hold names fit, since the reader takes at most 64 bytes for a
-- name. A `Line` is a response as it is printed, with the id of the server. A cache is taken to
-- have a positive capacity below 2 ^ 32 - 1, and a server fewer than 2 ^ 32 - 2 documents and
-- edits.
--
-- A file is the list of its bytes, none of them zero; the reader's loop over the lines of a content has
-- the bytes left and one as fuel, since each line has a byte. `atoi` is taken to read numbers that fit
-- an `int`.
--
-- Two invariants of the balancer carry the theorems on it: IsBalancer (LoadBalancer/Balanced) without
-- replicas and IsReplicated (LoadBalancer/Replicated) with them. Program/Cluster is the abstract view:
-- which ids servers have and what the documents are, with the steps that requests make.
--
-- Not modelled: the functions that only free or print, and the arguments of main. The removal of a
-- server with replicas is modelled, without a theorem on the whole of it.
pub mod Base
pub mod Hash
pub mod Request
pub mod ArrayList
pub mod LinkedList
pub mod Queue
pub mod HashMap
pub mod Strings
pub mod Ring
pub mod DoublyLinkedList
pub mod LruCache
pub mod Server
pub mod Transfer
pub mod LoadBalancer
pub mod Reader
pub mod Program
