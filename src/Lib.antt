-- ===== src/Lib.antt =====
-- libtwilight is a micro kernel for Wii and GameCube homebrew. This library models its portable
-- part (common/) and the logic of its PowerPC part (ppc/), with the native natural numbers for
-- addresses, words and bytes.
--
-- - Prelude: tests, lists, signed integers and bits (Prelude/Bits/Words: single bits;
--   Prelude/Bits/Masks: masks and joined words), shared by all.
-- - Memory (ppc/misc.S, TW_CopyBytes): copies of bytes.
-- - Slab (common/structures.c, TwSlabBucket256): the chain of 32-slot buckets from which mutexes,
--   conditions, futures and queues are taken. Slab/Single: one bucket; Slab/Chain: a chain.
-- - Queue (common/structures.c, TwQueue): the ring buffer with waiting pushes and pulls. A call
--   that waits is given the list of its wake-ups, each with the queue as other threads left it.
--   Queue/Ring: the ring; Queue/Push, Queue/Pull: one call; Queue/Idle: a queue as created, under
--   every interleaving of calls.
-- - Integer (common/strformat.c, TW_WriteInteger): digits, sign, prefix and padding.
--   Integer/Layout: the segments of the text; Integer/Digits: reading it back.
-- - Double (common/strformat.c, TW_WriteDouble): the digit array, on which the value of a double
--   is computed exactly, and the text; a double is its 64 bits. Double/Value: the number that
--   digits stand for; Double/Multiply, Double/Shift, Double/Channel: the loops; Double/Steps,
--   Double/Halving, Double/Add: one shift or addition; Double/Ready, Double/Interval,
--   Double/Widened, Double/Bits, Double/Exact: the value; Double/Text: the rounding and the text,
--   with Double/Text/Round, Double/Text/Spell, Double/Text/Emit, Double/Text/Reading,
--   Double/Text/Decimal and Double/Text/Number.
-- - Format (common/strformat.c, TW_FormatStringV): the machine over the bytes of the format
--   string. Format/Machine: one round of the loop, written over a sink; Format/Buffer: the
--   512-byte buffer and its transfers; Format/Simulate, Format/Refine, Format/Whole: the
--   refinement; Format/Real: %f with the function of Double; Format/Literal, Format/Modifiers:
--   what the machine does with plain bytes and with length modifiers.
-- - Future (common/structures.c, TwFuture; ppc/threading_ppc.c, TW_AwaitCondition): a future
--   under the actions of any number of threads. Future/Reached: what callers see; Future/Late:
--   the wait for bit 0 of its word.
-- - File (common/file.c): the table of open files and the synchronous calls, which wait on a
--   Future. File/Table, File/Add: lookups behind TW_SetFile and TW_AddFile; File/Sync: results of
--   a driver.
-- - Heap (common/structures.c, TwHeapAllocator): the chain of block headers, allocation, freeing
--   and reallocation. Heap/Chain: the well-formed chain; Heap/Allocate, Heap/Free: what keeps it;
--   Heap/Size: the size that a reallocation goes by.
-- - Flex (common/structures.c, TwFlexArray and TwBufferStream): Flex/Append: the growth of an
--   array and its block; Flex/Stream: the stream over a fixed buffer.
-- - Paths (common/filesystem.c, TW_WriteMatchingPaths), over the transfers of any stream:
--   Paths/Matching: which paths are written; Paths/Fitting: the stream of Flex as the output.
-- - Mounts (common/filesystem.c, TW_MountFilesystem, TW_ResolveFilesystemPath, TW_OpenFileSync):
--   the tables of mounted names, over the table of File. Mounts/Resolve: the filesystem and the
--   file that a path leads to.
-- - Partitions (common/filesystem.c, TW_EnumeratePartitions): the search for partitions, with the
--   registered parsers as a parameter. Partitions/Count: its result.
-- - Ios (ppc/wii/ios.c): requests to the other processor and their completion, with a Future for
--   the opening of a device and Paths for the listing (Ios/Folder). Ios/Slots, Ios/Ring: the
--   buffers and their reuse; Ios/Complete: the handler that is found; Ios/Vectors: the caches
--   around a call with views; Ios/Open: opening.
-- - HashMap (common/structures.c, TwHashMap): the map of fixed keys. HashMap/Place,
--   HashMap/Fixed: where the keys stand; HashMap/Find: lookups.
-- - Threads (ppc/threading_ppc.c): mutexes, scheduled tasks and the table of threads.
--   Threads/Lock: threads that share a mutex; Threads/Tasks: what becomes of tasks; Threads/Start:
--   the thread that is started.
-- - Interrupts (ppc/interrupts.c, as built for the Wii): the handlers set and the handler that an
--   interrupt reaches (Interrupts/External).
-- - Serial (ppc/serial.c): the registers of the controller ports as words of memory.
--   Serial/Ports: the set-up of the ports; Serial/Description: the bytes of the buffer.
-- - Video (ppc/video.c): colours (Video/Colour) and rectangles in the frame buffer (Video/Frame).
--   Sums of coordinates, like those of sizes in Flex and Heap, wrap around as 32-bit integers.
-- - Terminal (ppc/video.c): the escape sequences, which move the cursor, choose colours and clear
--   rectangles of Video. Terminal/Cursor: one sequence; Terminal/Reader: sequences that come in
--   parts; Terminal/Print, Terminal/Print/Plain: TW_PrintTerminal and a line of text.
--
-- The names follow the source: TW_PushToQueue is Queue.push, TW_WriteInteger is
-- Integer.write_integer, TW_FormatStringV is Format.Buffer.format_string, and so on; a loop has a
-- name of its own.
--
-- Bounds and fuel: the copy loop of TW_FormatStringV runs on fuel of two rounds more than bytes,
-- enough because a round that copies no byte empties the buffer; a digit array of TW_WriteDouble
-- has the 1383 digits of the source, enough because every finite double is below 10^309 and a
-- multiple of 2^-1074, and its precision is 1073 at most, because the code reads digit 1074 -
-- precision - 1, and for a negative precision a digit behind the array counts as 0; the digit loop of TW_WriteInteger has the 64 rounds of the source; the loop that
-- grows a flexible array runs on fuel of the size asked for, enough for sizes below 2^27 because
-- from 64 on a round adds at least one, while for large sizes the loop does not end, and an
-- array then has no result; the nested calls of TW_EnumeratePartitions run on fuel for their depth,
-- where one level is shown to be enough for parsers that find nothing; the search for a freed
-- block runs on fuel of the blocks looked at, with which the theorems hold for every amount; the
-- loop that determines the size of a block ends within two rounds; the loops of TW_PrintTerminal
-- run on fuel of twice the bytes and of the bytes, with which a line of text is shown to be
-- printed; the loop of TW_RequestSerialBuffer runs on fuel of the bytes asked for, of which a
-- round covers four; the loop over the mounted names runs on fuel of their bytes, which is shown
-- to be enough, since a round passes one byte at least; all other loops are structural.
--
-- Not modelled: TW_WriteDouble is a parameter of the formatter (the bytes it writes as a function
-- of its arguments), which Format/Real fills with the function of Double; the ES and SD devices,
-- context switches and device registers of ppc/, the start-up assembly, the font data, the
-- examples and the build scripts. TW_DivideU64 is taken as its definition in
-- tests/testing_utils.c, whose PowerPC version is assembly. Pointers are addresses, and a va_list
-- is a list of typed arguments in which a read at the wrong type has no result.
pub mod Prelude
pub mod Memory
pub mod Slab
pub mod Queue
pub mod Integer
pub mod Format
pub mod Future
pub mod File
pub mod Video
pub mod Terminal
pub mod Flex
pub mod Paths
pub mod Partitions
pub mod Heap
pub mod Ios
pub mod HashMap
pub mod Threads
pub mod Interrupts
pub mod Mounts
pub mod Double
pub mod Serial
