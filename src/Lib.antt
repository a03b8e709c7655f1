-- ===== src/Lib.antt =====
-- RTBench measures real-time behaviour. Its benchmarks (bench/) run under Linux or on SmallOS, a small
-- 32-bit operating system for multiprocessor PCs (tools/src/baremetal/smallos/), which a loader starts
-- beside Linux (linux_boot/) or alone. This library models the parts of SmallOS that compute: the C
-- functions are functions here, with the state that they change passed along.
--
-- How the parts work together. `mp_main` (src_c/mp_main.c) initialises the serial port, the VGA console
-- and the keyboard, finds the processors and starts them. All output goes through `kprintf`, to the
-- serial port or the screen, with the number routines of src_c/utilities.c. The keyboard interrupt
-- fills a ring that the console reads. A spin lock keeps the output of the processors apart.
--
-- Files and code (paths under tools/src/baremetal/smallos/):
-- - Common: shared names; C's conditions as Boolean tests, arrays as lists, `|` and `&` as arithmetic,
--   tests of all bytes by evaluation.
-- - Memory: memset, memcpy and memcmp of src_c/utilities.c over a memory of bytes, and little-endian
--   loads. Memory.Laws has what they leave in memory, Memory.Writes what one write behind another leaves.
-- - Text: strlen, strncpy, strrev, itoa, lw_itoa and atoi of src_c/utilities.c. Text.Digits is
--   positional notation by itself, Text.Strings says what a string in memory is; Copies, Printing,
--   Itoa and Atoi have the routines.
-- - Printf: console_printf and kprintf of src_c/utilities.c. Pieces says what a format has to print,
--   Steps has one round, Ready the state between two pieces, Numbers a number with its zeros, Places a
--   piece before the rest, Format the whole format, Both the two outputs of kprintf; Items, Reading and
--   Calls are about several calls.
-- - Keyboard: kbcISR, kbcInit and kbd_getchar of src_c/keyboard.c. Keyboard.Queue is the queue that the
--   ring stands for, Refine and Run relate the two, Letters is about the modifiers.
-- - Video: src_c/video.c; the screen is a memory of cells, the port writes are a list. Scroll, Position
--   and Print have the loops, the position and a whole text.
-- - Serial: src_c/serial.c; the output is the list of bytes sent. Hexadecimal, Decimal and Format have
--   the numbers and serial_printf. Serial.Line is the port with its waits, by access, and Sent what goes
--   through it.
-- - Mp: src_c/mp.c; Mp.Search and Mp.Table are the tables of the MP specification, Mp.Acpi with its
--   children Madt and Scan is ACPIScan.
-- - Timer: src_c/timer.c; Wait is the wait for a wrap and the divisor, Registers has the timer interrupt
--   and the model-specific registers of src_c/lwrte.c.
-- - Identify: IdentifyCPU of src_c/mp_main.c, over the kprintf of Printf; Reading has the formats,
--   Printed what goes to either output. What cpuid answers is an argument.
-- - MemoryMap: scan_memory_map of src_c/mp_main.c; Walk has its loop.
-- - Apic: the local APIC: include/apic.h, the timer functions and mpSendIPI of src_c/mp.c, the timer of
--   src_c/lwrte.c. The accesses form a history, and what a device answers is a function of it. Sleep
--   has what the timer functions program.
-- - Setup: doMPSetup of src_c/mp.c; Boot has the messages to one processor, Loop those to all, Start the
--   whole function.
-- - Commands: apps/mwaitTester.c, the command loop of the benchmark cores, with smp_idle_loop of
--   src_c/mp.c. Commands.Driver is core 0: run_rt_tests and lwrte_eu0 of src_c/mp_main.c. Once is about
--   all schedules, Report about the numbers printed, Answer about a core that runs by itself.
-- - Pci: src_c/pci.c; Address is the address word, Search the search for a device. What the hardware
--   answers is an argument.
-- - Interrupts: src_c/gdt.c and src_c/isr.c; Gates has the descriptor tables, Dispatch the handlers, whose
--   effects are a list.
-- - SpinLock: src_c/spinlock.c, by instruction and for any number of cores; Owner is the lock as its
--   callers see it, Safety and Progress what follows for all schedules.
-- - Messages: several processors in serial_printf or console_printf at once, over SpinLock; Invariant
--   says which texts are out, Facts and Moves have the single moves, Order what follows for all schedules.
-- - Slots: bench/503.slots/src/main.c, from the repository's root; Fifo is what it relies on of the rings,
--   Invariant and Moves count the messages for every step, Safety has what follows, Table is how the
--   bare-metal cores share the rings.
-- - Loader: linux_boot/bootloader.c; Image has the bytes that the lines of the file put into memory, Start
--   the whole program.
-- - MotionControl: bench/501.motioncontrol/src, from the repository's root: the measurement of main_501 and
--   test_ctrl, with the result in Extremes; Control has the drives of open_ctrl.cpp over any arithmetic of
--   floats, Change one round for a drive, Steady what their control keeps.
-- - Phymem: tools/src/baremetal/phymem/phymem.c, from the repository's root; Fill has its fill loops, Read
--   the listing, Write a write of every length, Main the whole program.
-- - LinearCode: bench/502.linearcode/src/main.c, from the repository's root; Calls and Functions read the
--   generated bytes as instructions, Machine and Run run them.
-- Each has a module Tests with runs at concrete inputs.
--
-- Numbers are natural numbers. An unsigned 32-bit value is reduced by `% 2 ^ 32` where the code can
-- leave the range, and an `int` is its two's complement pattern. Bytes of a memory are not bounded:
-- where a result needs bytes it says so.
--
-- Loops over a count recurse on the rounds left. Loops that stop at a NUL, at a quotient 0 or at
-- the end of a table take fuel and return `none`, or `out_of_fuel`, without it. What is enough: the
-- length of the string plus one for strlen and the copies, 12 for itoa, 11 for printDec, the rounds
-- and 11 for serial_printf, the rounds and 14 for console_printf, 60 for IdentifyCPU, the bytes of
-- the MADT plus one for ACPIScan, the regions plus one for scan_memory_map, the counts read for
-- wait_pit_wrap, the reads until a zero count or an answer for the loops of Apic and Setup, and
-- until the transmitter is empty for each character on the serial port, the words plus one for the
-- loops of Phymem. Loops that move through an array or a mapping of a given size end with
-- `out_of_bounds` at the first access outside it: 64 regions for scan_memory_map, the pages mapped
-- for Phymem, and for Loader, with an outcome of its own, the one page of an origin. What such an
-- access does on the machine is not modelled. Over a MADT with a structure of length 0 no amount
-- may be enough.
--
-- The 40 rounds of Slots are those of the code; its schedules are lists of any length.
--
-- Not modelled: the instructions behind the ports and the LAPIC registers, interrupt entry and paging in
-- assembler; the order of the calls in mp_main and ap_main with the messages between them, and the test
-- functions that nothing calls; the time stamps around the code of 502.linearcode. bench/common/rte_ring.c
-- is a copy of the ring library of Intel DPDK.
pub mod Apic
pub mod Commands
pub mod Common
pub mod Identify
pub mod Interrupts
pub mod Keyboard
pub mod LinearCode
pub mod Loader
pub mod Memory
pub mod MemoryMap
pub mod Messages
pub mod MotionControl
pub mod Mp
pub mod Pci
pub mod Phymem
pub mod Printf
pub mod Serial
pub mod Setup
pub mod Slots
pub mod SpinLock
pub mod Text
pub mod Timer
pub mod Video
