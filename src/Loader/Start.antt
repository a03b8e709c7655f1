-- ===== src/Loader/Start.antt =====
-- bootloader.c: the whole program, from its arguments to the signals to the processor.
use rtbench.Common.{
  ℕ, ◌+◌, ◌*◌, ◌%◌, ◌^◌, ◌≤◌, ◌<◌, ◌≡◌, refl, sym, ap, ◌∙◌, subst, arith, bit_or, bit_and,
  bit_or-eq_add, page_and_offset, page-add-offset, if◌then◌else◌, Bool, true, false, List, [], ◌∷◌,
  ◌++◌, length, Option, none, some,
}
use rtbench.Memory.Writes.{Written}
use rtbench.Loader.{
  Libc, Junk, strncpy, is_origin, Loader, ask_key, load_origin, load_line, load_file, Arguments,
  check_arguments, Signal, icr, usleep, init_sipi, Outcome, refused, left_page, booted, Load,
  unmapped, off_page, loaded, start_processor, after_check, boot_main,
}
use rtbench.Loader.Image.{ReadsPairs, Stops, AreLines, image, Room, load_file-Loaded}

-- Arguments that the program accepts.
pub record Accepted (a : Arguments) : Type 0 where
  pub argc : a.argc ≡ 4
  pub name : a.name_length ≤ 80
  pub apid_is_number : a.apid_is_number ≡ true
  pub apid_from : 1 ≤ a.apid
  pub apid_to : a.apid ≤ 8
  pub address_is_number : a.address_is_number ≡ true
  pub address_to : a.address ≤ 255

check_arguments-Accepted : (a : Arguments) → check_arguments a ≡ none → Accepted a
unfolding check_arguments
check_arguments-Accepted a e = ground arith

Accepted-check_arguments : (a : Arguments) → Accepted a → check_arguments a ≡ none
unfolding check_arguments
Accepted-check_arguments a h = ground arith

-- INIT and twice STARTUP to a processor, with the page of its first instruction.
abbrev pub signals : ℕ → ℕ → List Signal
signals apid page =
    icr 0x310 (apid * 0x1000000)
    ∷ icr 0x300 0x4500
    ∷ usleep 10000
    ∷ icr 0x310 (apid * 0x1000000)
    ∷ icr 0x300 (0x4600 + page)
    ∷ usleep 500
    ∷ icr 0x310 (apid * 0x1000000)
    ∷ icr 0x300 (0x4600 + page)
    ∷ usleep 500
    ∷ []

init_sipi-signals :
    (a : Arguments) → Accepted a → init_sipi a.apid a.address ≡ signals a.apid a.address
unfolding init_sipi
init_sipi-signals a h =
    let high : a.apid * 2 ^ 24 % 2 ^ 32 ≡ a.apid * 0x1000000 = omega (arith, h) in
    let low : bit_or 0x4600 a.address ≡ 0x4600 + a.address =
      bit_or-eq_add 8 0x46 a.address (omega (arith, h)) in
    rw (high, low) refl

ask_key-keeps : (s : Loader) → (ask_key s).memory ≡ s.memory
ask_key-keeps s = ground arith

-- The line gives the origin `a`, and its page can be mapped.
pub record IsOrigin (libc : Libc) (junk : Junk) (line : ℕ → ℕ) (a : ℕ) : Type 0 where
  pub marked : is_origin line ≡ true
  pub address : libc.strtol (strncpy line 8 8 ++ junk.addr) ≡ a
  pub word : a < 2 ^ 32
  pub mapped : libc.mmap (bit_and a 0xfffff000) ≡ true

load_line-origin :
    (libc : Libc) (junk : Junk) (line : ℕ → ℕ) (a : ℕ) (s : Loader)
    → IsOrigin libc junk line a
    → load_line libc junk line s
      ≡ loaded (record (ask_key s) { page = some (bit_and a 0xfffff000); log_phy_addr = a })
unfolding load_line load_origin
load_line-origin libc junk line a s h =
    let physical : libc.strtol (strncpy line 8 8 ++ junk.addr) % 2 ^ 32 ≡ a = omega (arith, h) in
    rw (h.marked, physical, h.mapped, page_and_offset 20 a h.word) refl

module _ (libc : Libc) (junk : Junk) (pairs : ReadsPairs libc) (stops : Stops junk.fourbyte) where
  load_file-Image :
      (line : ℕ → ℕ) (a : ℕ) {ls bs : List (ℕ → ℕ)} (s : Loader)
      → IsOrigin libc junk line a
      → AreLines ls bs
      → a % 2 ^ 12 + 16 * length bs ≤ 2 ^ 12
      → (t : Loader) × (load_file libc junk (line ∷ ls) s ≡ loaded t)
        × Written s.memory a (16 * length bs) (image bs) t.memory
  unfolding load_file
  load_file-Image line a {ls} {bs} s h lines fits =
      let page = bit_and a 0xfffff000 in
      let s1 = record (ask_key s) { page = some page; log_phy_addr = a } in
      let place : page + a % 2 ^ 12 ≡ a = page-add-offset 20 a h.word in
      let room : Room (16 * length bs) s1 = record {
        page = page;
        mapped = refl;
        from = omega (arith, place);
        to = omega (arith, place, fits);
      } in
      let (t, e, w) = load_file-Loaded libc junk pairs stops s1 lines room in
      (
        t,
        rw (load_line-origin libc junk line a s h) e,
        subst (λ m. Written m a (16 * length bs) (image bs) t.memory) (ask_key-keeps s) w.written,
      )

  -- With accepted arguments, the I/O permission and the pages mapped, a file of one origin and lines of
  -- 16 bytes each, which fit in the page of the origin from its offset on, puts exactly these bytes in
  -- memory from the origin on, and nothing else, and the processor gets INIT
  -- and twice STARTUP with the page that was asked for. Behind the two characters that are converted
  -- stands no hexadecimal digit, and `strtol` reads two digits as documented.
  pub boot_main-Image :
      (line : ℕ → ℕ) (a : ℕ) {ls bs : List (ℕ → ℕ)} (args : Arguments) (s : Loader)
      → IsOrigin libc junk line a
      → AreLines ls bs
      → a % 2 ^ 12 + 16 * length bs ≤ 2 ^ 12
      → Accepted args
      → libc.mmap 0xfee00000 ≡ true
      → (t : Loader) × (boot_main libc junk true (some (line ∷ ls)) args s
          ≡ booted t (signals args.apid args.address))
        × Written s.memory a (16 * length bs) (image bs) t.memory
  unfolding boot_main
  boot_main-Image line a {ls} args s h lines fits ok_args mapped =
      let (t, e, w) = load_file-Image line a s h lines fits in
      (
        t,
        rw (Accepted-check_arguments args ok_args, e, mapped, init_sipi-signals args ok_args) refl,
        w,
      )

signals_of : Outcome → List Signal
signals_of (refused code) = []
signals_of left_page = []
signals_of (booted s sent) = sent

if_booted :
    (mapped : Bool) (s : Loader) (l : List Signal) (code : ℕ) {t : Loader} {sent : List Signal}
    → (if mapped then booted s l else refused code) ≡ booted t sent
    → sent ≡ l
unfolding signals_of
if_booted true s l code e = sym (ap signals_of e)
if_booted false s l code e = absurd (ground arith)

start_processor-signals :
    (libc : Libc) (args : Arguments) (file : Load) {t : Loader} {sent : List Signal}
    → Accepted args
    → start_processor libc args file ≡ booted t sent
    → sent ≡ signals args.apid args.address
start_processor-signals libc args unmapped h e = absurd (ground arith)
start_processor-signals libc args off_page h e = absurd (ground arith)
start_processor-signals libc args (loaded s) h e =
    if_booted (libc.mmap 0xfee00000) s (init_sipi args.apid args.address) 3 e
    ∙ init_sipi-signals args h

after_check-Accepted :
    (libc : Libc) (junk : Junk) (iopl : Bool) (file : Option (List (ℕ → ℕ))) (args : Arguments)
    (s : Loader) (code : Option ℕ) {t : Loader} {sent : List Signal}
    → check_arguments args ≡ code
    → after_check libc junk iopl file args s code ≡ booted t sent
    → Accepted args × (sent ≡ signals args.apid args.address)
after_check-Accepted libc junk iopl file args s (some c) checked e = absurd (ground arith)
after_check-Accepted libc junk false file args s none checked e = absurd (ground arith)
after_check-Accepted libc junk true none args s none checked e = absurd (ground arith)
after_check-Accepted libc junk true (some lines) args s none checked e =
    let accepted = check_arguments-Accepted args checked in
    (accepted, start_processor-signals libc args (load_file libc junk lines s) accepted e)

-- The program signals no processor unless its arguments are accepted, and then the one that they name,
-- from 1 to 8, with a page below 256; whatever the file, the C library and the permissions are.
pub boot_main-Accepted :
    (libc : Libc) (junk : Junk) (iopl : Bool) (file : Option (List (ℕ → ℕ))) (args : Arguments)
    (s : Loader) {t : Loader} {sent : List Signal}
    → boot_main libc junk iopl file args s ≡ booted t sent
    → Accepted args × (sent ≡ signals args.apid args.address)
unfolding boot_main
boot_main-Accepted libc junk iopl file args s e =
    after_check-Accepted libc junk iopl file args s (check_arguments args) refl e
