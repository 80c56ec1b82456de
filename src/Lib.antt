-- ===== src/Lib.antt =====
-- A model of devclego, a framework for programs built of components that run in threads and pass
-- data through puffers. The library under src/lib holds the containers that the components share.
--
-- Prelude: tests, lists, 32-bit words and permutations over the native numbers.
-- Store: memory as an explicit store of nodes, with allocation, access and `free`, and what a run
--   returns.
-- Puffer: `datapuffer_t` of src/lib/lib_puffers.c, the ring between two components, with the
--   receive and supply macros of src/lib/lib_puffers.h. `datapuffer_X` is the function of that name.
-- SlidingWindow: the window of src/lib/lib_puffers.c over two puffers, with the calls of its plugins,
--   and the sum of src/lib/lib_swplugins.c; `window_X` is `slidingwindow_X`.
-- RecPuffer: the component for recycled items that `CMP_DEF_RECPUFFER` of src/cmp/cmp_predefs.h
--   makes over a puffer.
-- BinTree: src/lib/lib_bintree.c, the search tree of pointers with counts; `X` is `_X` or
--   `bintree_X`. A tree stands for a table, a list of entries in order: BinTree/Table.
-- MinMax: the plugin of src/lib/lib_swplugins.c that keeps the minimum and the maximum of the items
--   in a window, over a tree; `minmax_X` is `_swminmax_X`. MinMax/InWindow joins it to SlidingWindow.
-- Text: the strings and the byte order of src/etc/etc_utils.c; a pointer is the list of the bytes
--   from it to the end of its array.
-- SList: the singly linked lists of src/lib/lib_funcs.c, on the store.
-- DList: the doubly linked lists of src/lib/lib_funcs.c, on the store, with the nodes of Queue.
-- HolePuffer: `mdatapuffer_t` of src/lib/lib_puffers.c, the ring whose read index can be moved.
-- Queue: src/lib/lib_queue.c, a doubly linked queue, on the store, with `make_dlist` of
--   src/lib/lib_makers.c. `queue_X` is the function of that name.
-- MaxHeap: src/lib/lib_heap.c, a binary heap of `int`; `heap_X` is `_heap_X` and `heapify` is
--   `_heapify`.
-- DataMap: the tables of src/dmap/dmap.c; `X` is `_dmap_X` (`row_dtor`, `rem`, `add_row`), and
--   `add_item` is what a macro of src/dmap/dmap_predefs.h makes.
-- Fsm: the machine of src/fsm/fsm.c, src/fsm/fsm_halt.c and src/fsm/fsm_run.c (`fire` is
--   `_fsm_fire`) and `program` of src/main.c, which drives it.
-- Threading: the barrier and the life of a thread of src/lib/lib_threading.c; every order of the
--   calls at a barrier is a sequence of events.
--
-- An `int32_t`, an `int` and an `unsigned int` are patterns of 32 bits: sums and differences wrap.
-- A pointer that the code only hands on is an option (Puffer) or an address (Queue). An access
-- outside an array or of a node that is not allocated is a fault, a value of the model. What
-- `malloc` and `realloc` return is a parameter, except for the items of a window, the rows of a table
-- and the queues, puffers and maps themselves, which are held by value: their allocation is taken to
-- succeed.
--
-- Loops with a bound in the source are structural recursion. The others run on fuel: the loops of
-- the heap on the number of items and one more, which the depth of the tree never reaches; the
-- loop of `GEN_PUFF_CLEAR_PROC` on more than the items that are stored; those over a table on its
-- size and one more; those of the window on at least two more than its items; a removal from the
-- search tree, which calls itself on the node before one with two children, on the number of
-- nodes, or one more; that of `stop_thread` on eleven, one more than the limit in the source; that
-- of `program` on more than the tests that its theorems say it makes. What another thread or a
-- signal handler writes is a function from the number of the test to what it reads.
--
-- Not modelled: printing and logging (src/lib/lib_debuglog.c, src/inc), signals and timers
-- (src/lib/lib_interrupting.c), and the copies of argtable2 and iniparser under src/etc and of a
-- vector in src/lib/lib_vector.c. The reset of the search tree, the percentile plugin, the data
-- chains of src/lib/lib_funcs.c, and the MAC addresses and the network of src/etc/etc_utils.c are
-- left out.
pub mod Prelude
pub mod Store
pub mod BinTree
pub mod DList
pub mod DataMap
pub mod Fsm
pub mod HolePuffer
pub mod MaxHeap
pub mod MinMax
pub mod Puffer
pub mod Queue
pub mod RecPuffer
pub mod SList
pub mod SlidingWindow
pub mod Text
pub mod Threading
