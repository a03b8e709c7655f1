-- ===== src/Messages.antt =====
-- The print functions of several processors at once: serial_printf (src_c/serial.c) and console_printf
-- (src_c/utilities.c) call spinlock_lock for apPrintLock, print their characters one by one, and call
-- spinlock_unlock. The instructions of the lock are those of SpinLock; the characters of a format are
-- given as its text.
pub mod Invariant
pub mod Facts
pub mod Moves
pub mod Order
mod Tests
use rtbench.Common.{ℕ, ◌==◌, if◌then◌else◌, List, [], ◌∷◌, ◌++◌}
use rtbench.SpinLock
use rtbench.SpinLock.{Pc, System, spinlock_lock, spinlock_unlock, instr}

-- What a core prints: the text of its call, the rest of it, and the texts of its later calls.
pub record Printer : Type 0 where
  pub text : List ℕ
  pub left : List ℕ
  pub later : List (List ℕ)

-- The lock and the cores, their printers, and the characters that went out.
pub record Shared : Type 0 where
  pub system : System
  pub printers : ℕ → Printer
  pub output : List ℕ

abbrev pub put_printer : Shared → ℕ → Printer → Shared
put_printer s i p = record s { printers = λ j. if j == i then p else s.printers j }

abbrev pub lock_step : Shared → ℕ → SpinLock.Action → Shared
lock_step s i a = record s { system = SpinLock.step s.system i a }

-- A core in its own code calls the print function for its next text, if it has one.
abbrev pub begin_text : Shared → ℕ → List (List ℕ) → Shared
begin_text s i [] = s
begin_text s i (t ∷ ts) =
    put_printer (lock_step s i spinlock_lock) i (record { text = t; left = t; later = ts })

-- With the lock: `while (*fmt_str)` over the characters, then `spinlock_unlock`.
abbrev pub print_next : Shared → ℕ → Printer → List ℕ → Shared
print_next s i p [] = lock_step s i spinlock_unlock
print_next s i p (c ∷ cs) =
    put_printer (record s { output = s.output ++ (c ∷ []) }) i (record p { left = cs })

abbrev pub move_at : Shared → ℕ → Pc → Shared
move_at s i Pc.outside = begin_text s i (s.printers i).later
move_at s i Pc.critical = print_next s i (s.printers i) (s.printers i).left
move_at s i pc = lock_step s i instr

-- What core `i` does next.
unfoldable pub move : Shared → ℕ → Shared
move s i = move_at s i (s.system.cores i).pc

-- The cores move in the order of the schedule.
unfoldable pub run : Shared → List ℕ → Shared
run s [] = s
run s (i ∷ is) = run (move s i) is

-- Every core has texts to print, and no call is under way.
abbrev pub idle : (ℕ → ℕ) → (ℕ → List (List ℕ)) → Shared
idle eax texts = record {
  system = SpinLock.initial eax;
  printers = λ i. record { text = []; left = []; later = texts i };
  output = [];
}
