-- ===== src/Lib.antt =====
-- liboffkv: one interface to three key-value services, Consul, etcd and ZooKeeper.
--
-- A client holds a path prefix and keeps the keys of a tree below it: an entry is created below the
-- root or below an entry, and has a value and a version. The parts, and the files that model them:
--
--   * liboffkv/errors.hpp: Errors. Exceptions are values; code that may throw returns an `Outcome`.
--     Exec has the methods that change an object or the service: they return the state with the
--     outcome, since what was done before a throw stays done.
--   * liboffkv/key.hpp (`Path`, here `KeyPath`, and `Key`): Key. A string is the list of its bytes.
--     Key/Segments and Key/Parent relate paths to their lists of segments, Key/Descendants says
--     when one path lies below another.
--   * liboffkv/util.hpp (`split_url`): Util. liboffkv/liboffkv.hpp (`open`): Open.
--   * liboffkv/client.hpp: Client has the types of arguments and results. Client/Spec says what each
--     method promises over a tree of entries, Client/Interface has the class `Client`, as a record of
--     methods, and the record of its promises.
--   * liboffkv/consul_client.hpp: Consul. The library ppconsul is the parameter `Ppconsul` of
--     Consul/Service. Naming has the names of keys, Session the client's fields and its session,
--     Replies the handling of each reply, Methods the methods, Commit and Transactions `commit`.
--     Consul/Contract states what Consul documents of its transactions, Consul/Refine is about the
--     methods over a service that keeps it, with the client as a `Client` in Refine/Client, and
--     Consul/Local is such a service.
--   * liboffkv/zk_client.hpp: Zk. The library zkpp is the parameter `Zk` of Zk/Service, with its errors
--     as replies. Session has the client's fields and the conversion of errors, Methods the methods,
--     Erase the recursive query and `erase`, Transactions `commit`. Zk/Contract states what ZooKeeper
--     documents, with a relation `Later` for what other clients may do between two calls;
--     Zk/Refine is about the methods over such a service, and Zk/Local is one. Boundaries, with its
--     lemmas on blocks of operations in Boundaries/Ends, serves the `commit` of Consul, too.
--   * liboffkv/etcd_client.hpp: Etcd. The gRPC interface is the parameter `Etcd` of Etcd/Service.
--     Naming has the keys and ranges, Builder is `ETCDTransactionBuilder`, Session the client's
--     fields and `LeaseIssuer`, Requests the transactions that the methods build, Replies what they
--     read in the answers, Methods the methods, and Plan, Outcomes and Transactions `commit`.
--     Etcd/Watch is `ETCDWatchCreator`, whose fields are shared under a lock: Watch/Threads has its
--     thread and the callers of `create_watch`, step by step between the points where the lock is free.
--     Etcd/Contract states what etcd documents of its transactions and reads. Etcd/Refine is about
--     the methods over a service that keeps it, with the client as a `Client` in Refine/Client; it
--     also says what a transaction requires of the stored keys, and relates `commit` to it.
--     Etcd/Stored is a service that keeps the contract, Etcd/Local a smaller one for `commit`.
--   * liboffkv/ping_sender.hpp: PingSender, the control object, its owner and the thread, with the
--     steps of both; PingSender/Reach has their interleavings. PingSender/Owners has the moves and
--     destructors of several senders, and a thread that cannot be started; PingSender/Ownership is
--     about who holds a control object. The clients record what they start a sender with, and the
--     callback is `renew`.
--   * liboffkv/clib.cpp and liboffkv/clib.h: Clib, over the methods of any client: the error codes and
--     the calls that return a number. Clib/Memory is the heap of the strings and arrays that are
--     handed out, with allocations that may fail, and Clib/Calls has the calls that use it or write
--     through a pointer of the caller; the lemmas on the heap are in Memory/Layout, Memory/Copying and
--     Memory/Leaks.
--
-- The clients call `Key` and `Path` for names, and their service for all else; a call takes the
-- state of the service and returns a new one, so a statement about one call holds whatever other
-- clients did before it. An `int64_t` is its 64-bit pattern, a natural number; `size_t` arithmetic
-- that wraps in the source (`unwrap_key_`) is written out modulo 2 ^ 64. Reading a vector or a
-- response out of its bounds is the outcome `undefined`, as is a failed assertion. Loops are
-- structural, but for the three that try again after other clients have interfered, in etcd's `set`
-- and in ZooKeeper's `erase` and `commit`: they run on a number of turns and return `none` if it
-- is used up, which no number can exclude while other clients go on; two turns are enough for etcd's
-- `set` when there are none and etcd does not refuse its transactions for their size. ZooKeeper's
-- recursive query goes down so many levels; more levels than the tree has are enough.
--
-- ZooKeeper's data versions are natural numbers, which an `int32_t` holds as long as an entry is
-- written less than 2 ^ 31 times; the client's conversion of an `int64_t` to one is written out modulo
-- 2 ^ 32, with -1 as any version (`zk_version`, and `Accepts` in Zk/Refine/Versions).
--
-- Not modelled: the destructors of clients and watches, the casts of the C interface, its calls that
-- only delete, `equal_as_unordered`, which only the tests call, and `PingSender::operator bool`, which
-- nothing calls. To the methods of a client a watch is the request that creates it, with the
-- condition that ends it. The promises of `get_children` are stated for Consul only, since etcd's way
-- from a key back to a path needs more of the stored keys.
mod Base
pub mod Errors
pub mod Exec
pub mod Key
mod Samples
pub mod Util
pub mod Boundaries
pub mod Client
pub mod Open
pub mod PingSender
pub mod Zk
pub mod Clib
pub mod Consul
pub mod Etcd
