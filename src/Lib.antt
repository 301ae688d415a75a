-- ===== src/Lib.antt =====
-- secondfs: the file system of UNIX V6++ as a Linux kernel module. This library models its C++ core,
-- the files in UNIXV6PP/, the operations that it gives to the VFS (inode.c, super.c, fileops.c), the
-- requests to the block device (bio.c), and the tools mkfs.c and fsck.c, and states what its parts keep.
--
-- The parts, from the bottom:
-- - The requests to the block device (bio.c): Bio has submit_bio, which cuts a buffer at the border of
--   a page; Bio.BlockLayer is the interface of the kernel's block layer, Bio.Pages.AddsTwo what is
--   asked of it.
-- - The buffer cache, class BufferManager (UNIXV6PP/BufferManager.cc): Cache.Pool holds its state, all
--   fields of all Bufs and of the heads of the queues, as functions of a pointer; Cache.Queue has
--   Initialize, Brelse, NotAvail and InCore; Cache.GetBlk has GetBlk, Bwrite and IODone;
--   Cache.Transfer has Bread, Bdwrite, Bflush and ClrBuf. The requests to the block device are the
--   interface Cache.Pool.BlockIo. Cache.Ring has doubly linked rings,
--   Cache.Queue.Laws, Cache.GetBlk.Laws and Cache.Transfer.Laws are about the calls.
-- - What the layers above use of the cache is the interface BufferIo: the calls on one device. Cache.Io
--   has the calls of BufferManager as an instance of it, with the Bufs and the device as the state; a
--   call that waits for good or fails leaves that outcome as the state of all that follows. There are
--   no general laws on the calls: the cache hands out a Buf twice after the write-back of a dirty one,
--   and a failed read leaves a Buf that looks valid. A theorem about a caller assumes of the single
--   calls that it makes what they yield (Serves, ServesZone, ServesFile).
-- - The file system, class FileSystem (UNIXV6PP/FileSystem.cc): FileSystem.SuperBlock is the super
--   block; FileSystem.Blocks has Alloc and Free, FileSystem.Inodes has IAlloc and IFree,
--   FileSystem.Sync has LoadSuperBlock and Update. FileSystem.FreeList is the abstract list of free
--   blocks that the stack in the super block and the groups on the disk stand for.
-- - The i-node, class Inode (UNIXV6PP/Inode.cc): Inode.Node is the record, Inode.Bmap has Bmap,
--   Inode.ReadWrite has ReadI and WriteI, Inode.Disk has IUpdate, ICopy and the lock, Inode.Trunc has
--   ITrunc. Inode.ReadWrite.Small has what a file is to ReadI. Inode.Bmap.Index has the layout of an index, stated without the arithmetic of Bmap.
-- - The file calls, class FileManager (UNIXV6PP/FileOperations.cc): File.Rdwr has Rdwr, Read and
--   Write, File.Locate has DELocate, the search in a directory, with the callback as a parameter.
--   File.Locate.Names has when a name is that of an entry. The characters of a name are signed and
--   those of an entry are not, as on x86, so a name with a byte from 128 on is none.
-- - The side of the VFS: Vfs.Inode has struct inode as far as the module uses it, the two functions
--   of inode.c that make it and the i-node of the volume conform, dirty_inode, write_inode and
--   evict_inode; Vfs.Mode has the bits of a mode. Vfs.Kernel has the state of a mounted volume, with
--   all i-nodes in memory by pointer, the interface of the calls of the kernel (Kernel), and the calls
--   of DELocate and WriteI as fileops.c makes them. Vfs.Super has super.c: iget, sync_fs,
--   write_super, fill_super, put_super. fileops.c is Vfs.FileCalls (read, write, fsync), Vfs.Link
--   (add_link, set_link, link, unlink), Vfs.Create (create and lookup, with new_inode of inode.c),
--   Vfs.Folder (add_dots, mkdir, rmdir, readdir) and Vfs.Rename. A function that goes on after a call
--   that can fail is split there, and the part behind the call has a name of its own. A variable that
--   the source does not initialise is an argument: `stack` for bytes, `err` for a field of parameters.
-- - The tools in user space: Tools.Device is the interface of a device file, with the system calls that
--   the tools make and laws (IsReliable) on calls that do not fail; Tools.Transfer has write_block and
--   read_block, Tools.Volume the structures as they stand on the device, Tools.Mkfs and Tools.Fsck the
--   two programs, from main on. What getopt_long, atoi, open, fstat and time yield are arguments, and
--   the numbers that fsck prints are a list. Tools.Mkfs.Formatted says what stands where on a formatted
--   volume; Tools.Mkfs.Mount takes such a volume to LoadSuperBlock. Tools.Memory is a file in
--   memory that fulfils the laws, for the examples.
--
-- Conventions. Prelude.Outcome has the outcomes of a routine: done, or an index outside its array or
-- a followed error pointer (out_of_bounds), a wait for a lock that nobody gives back (blocked), BUG(),
-- or fuel used up. Integers are natural numbers with the pattern of the 32-bit word; where the source
-- looks at a sign or counts down, the test or the wrap-around is written out (Prelude.Words). The
-- offsets and counts of a request and the positions in a directory are taken below 2^31, and the loops
-- of ReadI and WriteI leave by out_of_bounds above. Block has the bytes of a block and its
-- little-endian words.
--
-- Fuel. The loops of ReadI and WriteI have one round more than the bytes that are asked for, and each
-- round moves at least one byte. The walk along a queue of Bufs has 11 steps, for 10 Bufs and the
-- head. GetBlk and Bflush take the number of passes from their label `loop` as an argument, since a
-- pass ends by writing one Buf back. write_block has one round more than bytes, the loop of mkfs over
-- the groups one more than free blocks; in fsck the rounds of a read and of the walk over the groups
-- are arguments, since neither loop ends on every image.
--
-- Modelled without a result: ReadI through the tables of an index, WriteI, ITrunc, DELocate and Rdwr as
-- a whole, and the calls of fileops.c. They make any number of calls of the cache, and what these yield together depends on an
-- invariant of the Bufs that BufferManager does not keep.
--
-- Not modelled: the registration with the kernel (main.c), the one-line wrappers in
-- c_helpers_for_cc.c, and alloc_inode, destroy_inode and mount of super.c, which
-- are one call of the kernel each; memory that is freed; output to the log and the terminal; and the
-- code under `#if false`. Calls run one after the other: a spin lock makes no difference then, and a
-- mutex that is held blocks the caller. GetBlk after such a wait is get_blk_woken.
--
-- Examples has each result at a concrete input.
pub mod Bio
pub mod Block
pub mod BufferIo
pub mod Cache
pub mod Examples
pub mod File
pub mod FileSystem
pub mod Inode
pub mod Prelude
pub mod Tools
pub mod Vfs
