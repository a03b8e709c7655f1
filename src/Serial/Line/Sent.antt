-- ===== src/Serial/Line/Sent.antt =====
-- serial.c: what goes through the port is what the model of the output says.
use mathlib.Core.List.{append_assoc, append-nil}
use rtbench.Common.{
  ℕ, zero, suc, ◌+◌, ◌≤◌, ◌<◌, ◌≡◌, ◌≢◌, refl, sym, ap, ◌∙◌, arith, bit_and, ◌==◌, if◌then◌else◌,
  List, [], ◌∷◌, ◌++◌, Option, some, Bool-cases, inl, inr, subst, ==→eq, ne→==,
}
use rtbench.Serial.{sent}
use rtbench.Serial.Format.{sent_all}
use rtbench.Serial.Line.{
  Access, read_from, write_to, Device, data_port, wait_while_zero, read_serial, put_bytes,
  putchar_line, print_line,
}

-- The bytes written to the data port, the oldest first.
unfoldable pub data_bytes : List Access → List ℕ
data_bytes [] = []
data_bytes (read_from p v ∷ h) = data_bytes h
data_bytes (write_to p v ∷ h) = if p == data_port then data_bytes h ++ (v ∷ []) else data_bytes h

-- The history behind `n` reads of the status.
unfoldable pub polls : Device → ℕ → List Access → List Access
polls dev zero h = h
polls dev (suc n) h = polls dev n (read_from (data_port + 5) (dev h (data_port + 5)) ∷ h)

-- The device answers with a bit of the mask after at most `n` reads of its status, at any time.
abbrev pub Answers : Device → ℕ → ℕ → Type 0
Answers dev mask n =
    (h : List Access) → (k : ℕ) × (k ≤ n) × (bit_and (dev (polls dev k h) (data_port + 5)) mask ≢ 0)

-- From `h` on, each byte is written behind a read of the status in which the transmitter is empty; a
-- newline follows its carriage return directly.
pub data IsPolite (h : List Access) : List Access → Type 0 where
  begins : IsPolite h h
  polled : {h' : List Access} → IsPolite h h' → (p v : ℕ) → IsPolite h (read_from p v ∷ h')
  plain :
      {h' : List Access}
      → IsPolite h h'
      → (v a : ℕ) → bit_and v 0x20 ≢ 0
      → IsPolite h (write_to data_port a ∷ read_from (data_port + 5) v ∷ h')
  newline :
      {h' : List Access}
      → IsPolite h h'
      → (v : ℕ) → bit_and v 0x20 ≢ 0
      → IsPolite h
          (write_to data_port 10 ∷ write_to data_port 13 ∷ read_from (data_port + 5) v ∷ h')

-- Where a wait ends: behind a read with a bit of the mask, with only reads before it.
pub record Waited (mask : ℕ) (h : List Access) (r : Option (List Access)) : Type 0 where
  pub before : List Access
  pub value : ℕ
  pub returned : r ≡ some (read_from (data_port + 5) value ∷ before)
  pub ready : bit_and value mask ≢ 0
  pub same : data_bytes before ≡ data_bytes h
  pub polite : (start : List Access) → IsPolite start h → IsPolite start before

module _ (dev : Device) (mask : ℕ) where
  -- A read of the status, and what it says of the mask.
  abbrev pub status : List Access → ℕ × List Access
  status h =
      (bit_and (dev h (data_port + 5)) mask, read_from (data_port + 5) (dev h (data_port + 5)) ∷ h)

  pub wait_while_zero-Waited :
      (fuel k : ℕ) (h : List Access)
      → bit_and (dev (polls dev k h) (data_port + 5)) mask ≢ 0
      → k < fuel
      → Waited mask h (wait_while_zero status fuel h)
  unfolding wait_while_zero polls data_bytes
  wait_while_zero-Waited zero k h ready lt = absurd (omega arith)
  wait_while_zero-Waited (suc fuel) zero h ready lt = rw (ne→== _ 0 ready) (record {
    before = h;
    value = dev h (data_port + 5);
    returned = refl;
    ready = ready;
    same = refl;
    polite = λ start p. p;
  })
  wait_while_zero-Waited (suc fuel) (suc k) h ready lt =
      elim (Bool-cases (bit_and (dev h (data_port + 5)) mask == 0)) [
        | inl no_bit ↦
            let w =
              wait_while_zero-Waited fuel k (read_from (data_port + 5) (dev h (data_port + 5)) ∷ h)
                ready (omega arith) in
            rw no_bit (record {
              before = w.before;
              value = w.value;
              returned = w.returned;
              ready = w.ready;
              same = w.same;
              polite = λ start p. w.polite start (polled p _ _);
            })
        | inr bit ↦ rw bit (record {
          before = h;
          value = dev h (data_port + 5);
          returned = refl;
          ready = λ z. ground (arith, bit, z);
          same = refl;
          polite = λ start p. p;
        })
      ]

put_bytes-data_bytes :
    (a v : ℕ) (h : List Access)
    → data_bytes (put_bytes a (read_from (data_port + 5) v ∷ h)) ≡ data_bytes h ++ sent a
unfolding data_bytes
put_bytes-data_bytes a v h = elim (Bool-cases (a == 10)) [
  | inl e ↦ rw e (append_assoc (data_bytes h) (13 ∷ []) (a ∷ []))
  | inr e ↦ rw e refl
]

put_bytes-IsPolite :
    (a v : ℕ) (start h : List Access)
    → IsPolite start h
    → bit_and v 0x20 ≢ 0
    → IsPolite start (put_bytes a (read_from (data_port + 5) v ∷ h))
put_bytes-IsPolite a v start h p ready = elim (Bool-cases (a == 10)) [
  | inl e ↦ rw e (
      subst
        (λ x.
          IsPolite start
            (write_to data_port x ∷ write_to data_port 13 ∷ read_from (data_port + 5) v ∷ h))
        (sym (==→eq a 10 e)) (newline p v ready))
  | inr e ↦ rw e (plain p v a ready)
]

putchar_line-Sent :
    (dev : Device) (n fuel a : ℕ) (h : List Access)
    → Answers dev 0x20 n
    → n < fuel
    → (h' : List Access) × (putchar_line fuel dev a h ≡ some h')
      × (data_bytes h' ≡ data_bytes h ++ sent a)
      × ((start : List Access) → IsPolite start h → IsPolite start h')
unfolding putchar_line
putchar_line-Sent dev n fuel a h answers lt =
    let (k, le, ready) = answers h in
    let w = wait_while_zero-Waited dev 0x20 fuel k h ready (omega arith) in
    (
      put_bytes a (read_from (data_port + 5) w.value ∷ w.before),
      rw w.returned refl,
      put_bytes-data_bytes a w.value w.before ∙ ap (λ xs. xs ++ sent a) w.same,
      λ start p. put_bytes-IsPolite a w.value start w.before (w.polite start p) w.ready,
    )

print_line-more :
    (dev : Device) (n fuel : ℕ) (cs : List ℕ) (h : List Access)
    → Answers dev 0x20 n
    → n < fuel
    → (h' : List Access) × (print_line fuel dev cs h ≡ some h')
      × (data_bytes h' ≡ data_bytes h ++ sent_all cs)
      × ((start : List Access) → IsPolite start h → IsPolite start h')
unfolding print_line
print_line-more dev n fuel [] h answers lt =
    (h, refl, sym (append-nil (data_bytes h)), λ start p. p)
print_line-more dev n fuel (c ∷ cs) h answers lt =
    let (h', put, bytes, polite) = putchar_line-Sent dev n fuel c h answers lt in
    let (h'', printed, more, polite') = print_line-more dev n fuel cs h' answers lt in
    (
      h'',
      rw put printed,
      more
          ∙ ap (λ xs. xs ++ sent_all cs) bytes
          ∙ append_assoc (data_bytes h) (sent c) (sent_all cs),
      λ start p. polite' start (polite start p),
    )

-- On a device whose transmitter is empty after at most `n` reads of the status, with fuel above `n`, a
-- text goes out: the bytes on the data port are those that the output of `serial_printf` counts as sent,
-- and each is written only behind a read in which the transmitter was empty.
pub print_line-Sent :
    (dev : Device) (n fuel : ℕ) (cs : List ℕ) (h : List Access)
    → Answers dev 0x20 n
    → n < fuel
    → (h' : List Access) × (print_line fuel dev cs h ≡ some h')
      × (data_bytes h' ≡ data_bytes h ++ sent_all cs)
      × IsPolite h h'
print_line-Sent dev n fuel cs h answers lt =
    let (h', printed, bytes, polite) = print_line-more dev n fuel cs h answers lt in
    (h', printed, bytes, polite h begins)

-- `read_serial` returns what the data port answers behind the first read of the status in which a byte
-- is there; it comes after at most `n` reads, below the fuel, and nothing is written.
pub read_serial-Received :
    (dev : Device) (n fuel : ℕ) (h : List Access)
    → Answers dev 1 n
    → n < fuel
    → (v : ℕ) × (bit_and v 1 ≢ 0)
      × (h' : List Access) × (data_bytes h' ≡ data_bytes h)
      × (read_serial fuel dev h
          ≡ some (
            dev (read_from (data_port + 5) v ∷ h') data_port,
            read_from data_port (dev (read_from (data_port + 5) v ∷ h') data_port)
                ∷ read_from (data_port + 5) v
                ∷ h',
          ))
unfolding read_serial
read_serial-Received dev n fuel h answers lt =
    let (k, le, ready) = answers h in
    let w = wait_while_zero-Waited dev 1 fuel k h ready (omega arith) in
    (w.value, w.ready, w.before, w.same, rw w.returned refl)
