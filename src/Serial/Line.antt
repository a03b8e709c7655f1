-- ===== src/Serial/Line.antt =====
-- serial.c: the port itself. The accesses form a history, the newest first, and what a read of a port
-- answers is a function of it.
pub mod Sent
mod Tests
use rtbench.Common.{
  ℕ, zero, suc, ◌+◌, bit_and, ◌==◌, if◌then◌else◌, List, [], ◌∷◌, ◌++◌, Option, none, some, ◌>>=◌,
}

pub data Access : Type 0 where
  read_from : (port value : ℕ) → Access
  write_to : (port value : ℕ) → Access

abbrev pub Device : Type 0
Device = List Access → ℕ → ℕ

-- COM1.
abbrev pub data_port : ℕ
data_port = 0x3f8

-- `inb` and `outb`.
abbrev pub read_port : Device → ℕ → List Access → ℕ × List Access
read_port dev p h = (dev h p, read_from p (dev h p) ∷ h)

abbrev pub write_port : ℕ → ℕ → List Access → List Access
write_port p v h = write_to p v ∷ h

abbrev pub serial_received : Device → List Access → ℕ × List Access
serial_received dev h = let (v, h') = read_port dev (data_port + 5) h in (bit_and v 1, h')

abbrev pub is_transmit_empty : Device → List Access → ℕ × List Access
is_transmit_empty dev h = let (v, h') = read_port dev (data_port + 5) h in (bit_and v 0x20, h')

-- `while (test() == 0);`
unfoldable pub wait_while_zero :
    (List Access → ℕ × List Access) → ℕ → List Access → Option (List Access)
wait_while_zero test zero h = none
wait_while_zero test (suc fuel) h =
    let rest = wait_while_zero test fuel (test h).1 in
    if (test h).0 == 0 then rest else some (test h).1

unfoldable pub read_serial : ℕ → Device → List Access → Option (ℕ × List Access)
read_serial fuel dev h =
    wait_while_zero (serial_received dev) fuel h >>= λ h'. some (read_port dev data_port h')

abbrev pub put_bytes : ℕ → List Access → List Access
put_bytes a h = write_port data_port a (if a == 10 then write_port data_port 13 h else h)

unfoldable pub putchar_line : ℕ → Device → ℕ → List Access → Option (List Access)
putchar_line fuel dev a h =
    wait_while_zero (is_transmit_empty dev) fuel h >>= λ h'. some (put_bytes a h')

-- The characters of a text, by `serial_putchar`.
unfoldable pub print_line : ℕ → Device → List ℕ → List Access → Option (List Access)
print_line fuel dev [] h = some h
print_line fuel dev (c ∷ cs) h = putchar_line fuel dev c h >>= λ h'. print_line fuel dev cs h'

-- The port writes of `init_serial`: 38400 baud, 8 bits, no parity, one stop bit, with FIFO.
abbrev pub init_writes : List Access → List Access
init_writes h = write_port (data_port + 4) 0x0B (
    write_port (data_port + 2) 0xC7 (
      write_port (data_port + 3) 0x03 (
        write_port (data_port + 1) 0x00 (
          write_port data_port 0x03
            (write_port (data_port + 3) 0x80 (write_port (data_port + 1) 0x00 h))))))

-- `init_serial`: the writes, and the banner on the line.
unfoldable pub init_serial : ℕ → Device → List ℕ → List Access → Option (List Access)
init_serial fuel dev banner h = print_line fuel dev banner (init_writes h)
