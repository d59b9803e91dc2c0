-- ===== src/Lib.antt =====
-- FrostyOS is a kernel with its user programs. This library models the part of the kernel that
-- hands out physical memory, the data structures below it, the regions of virtual memory, lists
-- of threads and the semaphore, the page tables, the descriptors and streams of open files, and
-- keyboard input.
--
-- kernel/src/Data-structures/Bitmap.cpp is Data/Bitmap: the size in bytes and the bytes from the
-- buffer's address onward. `get` is `operator[]`, `set` is `Set`.
--
-- kernel/src/Data-structures/AVLTree.cpp is Data/AvlTree: a tree of nodes, each owned by the
-- pointer that leads to it, with the heights that the code keeps in the nodes. `insert`,
-- `find_node`, `find_node_or_higher`, and in Data/AvlTree/Delete `min_key` (`minValueNode`),
-- `delete_node` and `get_parent` follow the functions of the code statement by statement; a
-- dereference of null is `none`. Data/AvlTree/Order says what an ordered tree is and how a key
-- is looked up in one, Data/AvlTree/Heights what the heights are to be.
--
-- kernel/src/Memory/PhysicalPageFrameAllocator.cpp is Memory/FrameAllocator: State has the
-- fields and the spinlocks, Pages the methods on one page and their loops, Search `FindFreePage`
-- and `FindFreePages`, Allocate the two methods that hand pages out, Init the constructor,
-- `EarlyInit` and `FullInit`, with InitMarks about the frames that are marked. A method is an
-- action on the state whose outcome is a value, a panic or a deadlock. Invariant has the
-- invariant: the bytes of the bitmap are bytes, its frames fit in the address space, the locks
-- are free, and the hint names no frame in use. History runs sequences of calls, Loops is about
-- the methods on several pages and a page that is allocated and freed, and Faults about counts
-- of 0 and 1.
--
-- The pool of nodes in kernel/src/Data-structures/AVLTree.cpp is Data/NodePool: its array as an
-- address and the size of a node, its bitmap and its counter;
-- kernel/src/Data-structures/LinkedList.cpp has a copy of it.
--
-- kernel/src/Data-structures/Stack.hpp is Data/Stack; Model has the list that a stack stands
-- for.
--
-- kernel/src/Data-structures/Buffer.cpp is Data/Buffer, with Clear: `write_from` and `read_from`
-- are the search for the first block together with what follows it. Bytes has the bytes of all
-- blocks, Transfer what a write leaves there, Reads what a read gets, RoundTrip both. What new
-- memory holds is a parameter, and so is for which sizes `new` finds memory in `try_write`,
-- where a write without memory is `none`; `write` is the same with memory, and keyboard input
-- uses that one; and a `memset` past the end of a block is `none`.
--
-- kernel/src/Memory/VirtualRegion.cpp is Memory/Region: two ends and a size. Changes is about
-- the methods that move the ends, Inside about the two tests.
--
-- kernel/src/arch/x86_64/Memory/PageMapIndexer.cpp is Memory/PageTables: the tables by the
-- numbers of their frames, an entry as its bits and an address, and the frames from a record
-- `Frames` of what the code calls. `map_page`, and in Remap, Large and Unmap the other
-- operations, follow the functions that end in `_noflush`; a level of them that is written out
-- in the code several times is a function here. A table that the HHDM does not reach is `none`.
-- Walk has the walk as a recursion on the indices, Shape says how tables hang together: each has
-- a role, the indices that lead to it. kernel/src/Memory/PageTable.cpp is Memory/PageTable, with
-- the table that a process starts with in Start.
--
-- `ThreadList` in kernel/src/Scheduling/Scheduler.cpp is Scheduling/ThreadList: the links of all
-- threads and the fields of the list. Deque says which sequence of threads a list holds, Replies
-- compares the answers of calls with those of a sequence, Miscount is about `RemoveThread`.
--
-- kernel/src/Scheduling/Semaphore.cpp is Scheduling/Semaphore: every method is an action on the
-- semaphore and its three locks; `acquire` goes up to where the thread switches, and `resume` is
-- what is left. What `Scheduler::RemoveThread` does to the links of a thread that is ready but
-- does not run is not modelled. The list of waiting threads is a sequence here. Permits has the
-- invariant, Fifo the order of service.
--
-- kernel/src/fs/FileDescriptor.cpp is Files/FileDescriptor: Opening and Calls have the
-- operations, over the record `Devices` of what they call; a call of a stream may spin for ever.
-- Locked and Follows are about the lock, the latter over streams that return, from Steady.
--
-- kernel/src/fs/FileStream.cpp is Files/FileStream: Actions has the locks, the tests and the
-- head that a stream keeps and puts in its inode, Calls the methods, over the record `Streams`
-- of the methods of kernel/src/fs/TempFS/TempFSInode.cpp for an inode that is no symbolic link.
-- Unlocked is about streams that are used in order, Heads about several streams of an inode,
-- Faults about `GetFileSystem`. kernel/src/fs/DirectoryStream.cpp is Files/DirectoryStream.
--
-- kernel/src/fs/FileDescriptorManager.cpp is Files/DescriptorManager, with Operations:
-- descriptors on a heap by address, made by the constructor of Files/FileDescriptor, identifiers
-- in a bitmap of Data/Bitmap. Lookup has the table that a client sees, Table is about a new
-- identifier, Full about a table with no clear bit.
--
-- kernel/src/tty/KeyboardInput.cpp is Terminal/Keyboard: `react` is the long part of
-- `HandleEvent`, over the record `Buffers` for the buffer, which Blocks fills by Data/Buffer.
-- Codes has the numbers of the keys, Layout a keyboard, Typing what is typed on it, ReadBack
-- what is read again.
--
-- The allocator keeps its frames in the bitmap, the pool its nodes, the manager of descriptors
-- its identifiers; the manager makes its descriptors by their constructor, and keyboard input
-- can be put in a buffer of blocks. The allocator uses nothing of the tree. Common has the
-- shared types, the 64-bit words with their wrap-around, the bits of a byte, and lists and
-- counts. Tests runs the definitions, and the theorems, on concrete inputs.
--
-- Bounds and fuel. The loop of `FindFreePages` runs on fuel, one unit for each frame of the
-- bitmap, which is enough since every round goes on by one frame at least. The loops of
-- `ThreadList` run on fuel as well, for which one unit more than the threads in the list is
-- enough. All other loops have the number of their rounds, which the code fixes before them. The
-- loop over a range of free memory of more than 2 ^ 64 - 4096 bytes does not end: `early_init`
-- is `none` then, and `full_init` a deadlock. Heights of a tree are below 2 ^ 63.
--
-- Not modelled: other threads between two statements of a method (a held lock is a deadlock);
-- where the nodes of the tree come from (`insert` has as an argument whether there is a node for
-- it); what the memory holds before it is written and where `to_HHDM` finds a page, which are
-- parameters. Addresses in a buffer of a caller do not wrap around, and identifiers that are
-- reserved are not negative. Cached translations are not modelled, nor `x86_64_identity_map`.
-- The virtual memory managers, the run queues and processes, the file systems, the system calls,
-- the drivers and the C libraries are not in this library.
pub mod Common
pub mod Data
pub mod Memory
pub mod Tests
pub mod Files
pub mod Scheduling
pub mod Terminal
