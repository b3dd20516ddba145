-- ===== src/Lib.antt =====
-- The unlambda virtual machine: a byte stack, a heap with garbage collection, and the machine that
-- runs byte code on two stacks and that heap.
--
-- The parts and their files:
--   Base          names, Boolean tests, wrap-around arithmetic, lists, masks, the C allocator (Host),
--                 the ways in which a call ends (Run), texts (Text) and their digits (Digits)
--   Stack         src/stack.c: pushStack, popStack, readStackTop, swapStackTop, dupStackTop,
--                 clearStack, setStack and increaseStackSize. The bytes between `data` and `top` are a
--                 list, bottom first; `data` and `end` are host addresses.
--   Array         src/array.c: creation, growth, appendToArray, insertIntoArray, removeFromArray,
--                 clearArray and fillArray on the list of bytes
--   Symbols       src/symtab.c: the hash table from names to symbols as the list of its buckets, the
--                 list of the symbols by address, and every operation on both
--   Breakpoints   src/brkpt.c: the list on top of that array (add, remove, clear, isAtBreakpoint)
--   Instructions  src/vm_instructions.c: sizes and names; the codes are those of src/vm_instructions.h
--   Memory        src/vmmem.c: Bytes (the bytes by address), Header (type, size and mark of a block),
--                 State (VmMemoryImpl and its accessors), Allocate (allocateVmmCodeBlock,
--                 allocateVmmStateBlock), Grow (createVmMemory, increaseVmmSize,
--                 reserveVmMemoryForProgram), Collect (collectUnreachableVmmBlocks)
--   Heap          the abstract view of that memory: the list of its blocks, lowest address first, and
--                 what allocation (FirstFit), creation and reservation (Blank, Reserve), the sweep (Swept,
--                 Sweep, Release, Loop, Survivors, Collect) and the clearing of marks (Unmark) do to
--                 it; Reclaim is a whole collection without roots
--   Vm            src/vm.c: State (the two stacks as stacks of words), Blocks (allocateCodeBlock and
--                 allocateVmStateBlock, which collect garbage and then grow the memory), Functions
--                 (MKK, MKS0, MKS1, MKS2, MKD, MKC), Continuations (SAVE, RESTORE), Step (the other
--                 instructions and stepVm), Words, Transfer, Call and Return (what they leave), Load
--                 (createUnlambdaVM, loadProgramIntoVm, loadVmProgramFromMemory), Create and Program
--                 (what these leave)
--   Files         src/fileio.c over the calls of the operating system, which are parameters
--   Image         src/vm_image.c: program images; Cursor, Buffer, Save and Restore lead up to RoundTrip
--   Commands      src/dbgcmd.c: the commands of the debugger (createDebugCommand and its kin), Print
--                 (sprintDebugCommand, printDebugCommand), State and Scan (ParserState, and the functions
--                 that read one argument), Arguments and Parse (the parsers of the commands and
--                 parseDebugCommand); Number, Decimal (numbers), Valid, Address, Outcome, Always,
--                 Writing, Complete and Total (what the parser returns), Reading, Printable, Numeric
--                 and RoundTrip (what is printed is read back)
--   Assembler     src/asm.c: operands and lines; Scan and Parse (parseAssemblyLine and the functions it
--                 calls), Line (what it returns), Operand (what is printed is read back)
--   Tests         the definitions at concrete inputs
-- The machine calls the stack for its two stacks and the memory for the blocks of functions and
-- saved states; the memory reads the instruction sizes when it marks code.
--
-- Conventions. Machine words are natural numbers with the wrap-around written out. A NULL result is
-- `none`. A dereference of NULL, an access outside an array, a failed assertion and a loop that has
-- used up its fuel are values of Run, apart from each other; assertions are compiled in. `malloc`
-- and `realloc` are parameters with the law that a block they return lies in the address space; the
-- calls on files are parameters with the laws of a regular file, of which a call may transfer less
-- than it was asked to. A text is the list of its characters up to the final zero, and a pointer into
-- it is the rest from there; ctype.h is that of the C locale. In Assembler and Symbols `strdup` and the
-- like are taken to succeed.
--
-- Fuel. The growth loops of stack and array have the limit and two rounds more, of which each grows
-- the size or reaches the limit. Loops over blocks have the memory's size, since a block takes up at
-- least a byte. The binary search in the symbols has their number and one round more. The loop over
-- the bytes to write has two rounds more than the limit of the array that each round adds to.
--
-- Not modelled: status messages and logging (text only), destruction (frees only), the searches in
-- arrays, the printing of assembler lines, the assembler program (src/unlasm.c), the execution of the debugger's commands (src/debug.c), the command line
-- tools.
pub mod Base
pub mod Stack
pub mod Array
pub mod Instructions
pub mod Memory
pub mod Heap
pub mod Vm
pub mod Symbols
pub mod Files
pub mod Image
pub mod Commands
pub mod Assembler
pub mod Breakpoints
pub mod Tests
