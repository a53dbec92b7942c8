-- ===== src/Lib.antt =====
-- A verification of the data structures and the wire format of Ziqe, a system that runs the threads
-- of one process on several machines, which talk to one another over streams of messages.
--
-- The parts, from the bottom up:
--
-- * Vector models Base/Vector.hpp: a vector is a list of slots, and a slot without a value is storage
--   in which no object lives. The theorems on its operations are in Vector/Elements.
-- * ExtVector models Base/ExtendedVector.hpp: a window on a vector of bytes, with indices modulo
--   2 ^ 64. ExtVector/Window says what the window shows, ExtVector/Buffer makes it the buffer of a
--   reader or a writer.
-- * Expected models Base/Expected.hpp: Expected/Variant is `TwoVariant` with its raw storage and its
--   status, and the data type of Expected is the view that the other parts use.
-- * LinkedList models Base/LinkedList.hpp: nodes on a heap. LinkedList/Sequence says which sequence of
--   nodes a list represents; the modules beside it refine the operations to it.
-- * Optional models Base/Optional.hpp.
-- * Hash models the hash functions of Base/HashTable.hpp, and HashTable its table with unique keys: a
--   table index has an iterator to the first of its entries, which stand together in one linked list
--   (HashTable/Groups). HashTable/Lookup has the invariant, HashTable/Insertion, HashTable/Removal
--   and HashTable/Assignment keep it, and HashTable/Map and HashTable/Updates refine the operations
--   to those of a function from keys to optional contents. Keys are hashed and compared through the
--   record `Hashing`, whose law is that equality decides the paths between keys.
-- * RwLock models Base/RWLock.hpp: locks at addresses and the scopes that hold them. The functions of
--   the platform's lock are a parameter; the theorem on them assumes that locking adds one holder and
--   unlocking takes one away.
-- * SharedPointer and UniquePointer model Base/SharedPointer.hpp and Base/UniquePointer.hpp: the counts
--   and the deleted objects in a store.
-- * Codec models Base/FieldReader.hpp and Base/FieldWriter.hpp: the bytes of integers in both byte
--   orders. Codec/Buffers holds the interfaces through which a reader or a writer reaches its vector,
--   Codec/Fields the operations `readT`, `tryReadT` and `writeT` over these interfaces.
-- * UdpMessage models Network/UdpMessage.hpp and .cpp, the header of a datagram.
-- * Message models Core/Protocol/Message.hpp and .cpp and the receiving half of
--   Core/Protocol/MessageStream.cpp: the types, the messages with thread ids, `receiveMessage`. Messages with
--   several thread ids are only written, since `readTVector` does not compile.
-- * Peers models `OtherServers` of Core/Common/ProcessPeersServer.hpp: a linked list of connections with
--   reference counts and a hash table from thread ids to iterators into that list. Peers/Consistency
--   has the invariant, Peers/Joining and Peers/Leaving keep it, Peers/Histories has the states that
--   can be reached.
-- * PeersServer models the handlers of Core/Common/ProcessPeersServer.cpp on these other servers and on
--   the table of local threads. The three handlers of requests have one text but for the request and
--   the reply. What a request does to a thread is a parameter.
-- * Stream models `InputStreamVector` of Network/Stream.hpp and .cpp: the received vectors in a queue.
--   What the socket delivers is a list of arrivals.
-- * UdpStream models Network/UdpStream.cpp with `OutputStreamVector` of Network/Stream.hpp. What is
--   sent is a list of packets; the outputs that can be reached are an inductive relation. The constructor
--   of `UdpOutputVector` acts on the base object that it is given, since it names no constructor of it.
-- * SocketPlatform is the interface of sockets of Platforms/Linux/CppCore/Socket.h, a record of functions on
--   a state of the operating system; KernelSocket fills it as Platforms/Linux/CppCore/Socket.c does, over
--   the functions of the kernel, which are a parameter. Socket models Base/Socket.hpp and .cpp on the
--   interface. Socket/Sending, Socket/Receiving and Socket/Opening compose the two.
-- * PeersServer/Broadcast models the messages that a server sends to all its peers, with its constructor and
--   its destructor, which PeersServer/Lifetime is about, and PeersClient the
--   blocking calls of Core/Common/ProcessPeersClient.cpp. A run of such a call is given a number of rounds
--   of its loop and says in which state it then waits, if it has not ended.
-- * TcpStream and TcpServer model Network/TcpStream.cpp and Network/TcpServer.cpp, with `Listen` of
--   Network/UdpServer.cpp, and UdpStream/Connection the socket of Network/UdpStream.cpp. TcpServer/Accepting and UdpStream/Datagrams compose them with the sockets of Linux.
-- * BinaryTree models the nodes, the iterators and the rotations of Base/RedBlackTree.hpp on a store of nodes.
--   BinaryTree/Shapes says which tree a store holds. The descents to the ends of the order have fuel, for which
--   the number of nodes is enough.
-- * KernelMemory models ZqMmMapUserToKernel and ZqMmUnmapUserToKernel of Platforms/Linux/CppCore/Memory.c on
--   the functions of the kernel. KernelMemory/Holdings counts the references to pages, the readers of the
--   lock and the arrays, KernelMemory/Mapping is about what the two functions leave of them, for fewer than
--   2 ^ 31 pages, and KernelMemory/Results about the `int` in which the result is kept; KernelMemory/Pages is about the number of pages.
-- * Tests holds concrete runs; Prelude the shared helpers.
--
-- A result in `Option` is `none` where the code has undefined behaviour: a read or a write outside a
-- vector, through a null pointer, or of an object that has been destroyed. `Returns r P` says that
-- the run `r` avoids that and ends in a value with the property `P`. Assertions only log in the
-- source and leave no trace. Sizes and indices are `uint64_t`, with the wrap-around written out.
-- Loops are recursion on the lists that they walk over, so that they need no
-- fuel, but for the loops of `erase (begin, end)` of a linked list and of a hash table, and the search of a
-- hash table: their fuel is the size of the list, since every round goes on to another node of it. The
-- loops of `sendAll` have the length of the array, since each round is to send a byte, and one for the
-- last test; the loop over the connections has the size of their list; the descents in a tree have the
-- number of its nodes; and the wait of a client, which does not end, has any number of rounds.
--
-- Not modelled: the platforms under Platforms/ but for the sockets and the mapping of memory of Linux,
-- memory allocation, which is taken to succeed, the processes and threads of Core/Client and Core/Host, and the containers of Base/ that
-- are not named above.
pub mod Prelude
pub mod Vector
pub mod ExtVector
pub mod Expected
pub mod LinkedList
pub mod SharedPointer
pub mod UniquePointer
pub mod Optional
pub mod BinaryTree
pub mod RwLock
pub mod SocketPlatform
pub mod KernelSocket
pub mod KernelMemory
pub mod Hash
pub mod HashTable
pub mod Peers
pub mod PeersServer
pub mod PeersClient
pub mod Codec
pub mod UdpMessage
pub mod Message
pub mod Stream
pub mod UdpStream
pub mod Socket
pub mod TcpStream
pub mod TcpServer
pub mod Tests
