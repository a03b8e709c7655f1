-- ===== src/Printf/Numbers.antt =====
-- utilities.c: a number that `console_printf` prints, with the zeros before it.
use rtbench.Common.{
  ℕ, zero, suc, ◌+◌, ◌-◌, ◌≤◌, ◌<◌, ◌≡◌, ◌⊎◌, inl, inr, refl, sym, ap, ◌∙◌, subst, arith, List, [],
  ◌∷◌, ◌++◌, length, length-append, length-replicate, replicate, ltb, true, false, Option, some,
  eq→==, ne→==, lt→ltb, le→ltb, dec_lt,
}
use mathlib.Core.List.{append-nil}
use rtbench.Memory.{Mem}
use rtbench.Text.{strncpy, itoa}
use rtbench.Text.Digits.{IsNumeral}
use rtbench.Text.Itoa.{Result, itoa-Result}
use rtbench.Text.Copies.{strncpy-Wrote}
use rtbench.Text.Strings.{
  Holds, NonZero, IsString, Apart, Holds-join, Holds-replicate, NonZero-append, NonZero-replicate,
  strlen_lem,
}
use rtbench.Video.{print_str}
use rtbench.Printf.{
  Buffers, Printing, putchar, print_str_from, clear_fill, print_filled, print_number,
}
use rtbench.Printf.Ready.{IsReady}
use rtbench.Printf.Pieces.{AreApart, IsLetter, filled, left_over}

pub print_str_from_lem :
    (fuel p : ℕ) (s : Printing) (xs : List ℕ)
    → Holds s.memory p xs
    → NonZero xs
    → s.memory (p + length xs) ≡ 0
    → length xs < fuel
    → print_str_from fuel p s ≡ some (record s { vga = print_str s.vga xs })
unfolding print_str_from print_str
print_str_from_lem zero p s xs h nz e f = absurd (omega arith)
print_str_from_lem (suc fuel) p s [] h nz e f =
    rw (eq→== (s.memory p) 0 (ap s.memory (omega arith) ∙ e)) refl
print_str_from_lem (suc fuel) p s (c ∷ xs) h nz e f =
    rw (h.0, ne→== c 0 nz.0)
      (print_str_from_lem fuel (p + 1) (putchar c s) xs h.1 nz.1 (ap s.memory (omega arith) ∙ e)
        (omega arith))

-- A number `xs` that is printed with the width `f`, in the console `vga`.
pub record Numbered (b : Buffers) (m : Mem) (f : ℕ) (xs : List ℕ) (s : Printing)
    (r : Option Printing) : Type 0 where
  pub after : Printing
  pub returned : r ≡ some after
  pub ready : IsReady b m (left_over f xs) after
  pub shown : after.vga ≡ print_str s.vga (filled f xs)
  pub args : after.args ≡ s.args

filled_none : (f : ℕ) (xs : List ℕ) → f ≤ length xs → filled f xs ≡ xs
filled_none f xs le =
    let nothing : f - length xs ≡ 0 = omega arith in ap (λ k. replicate k b'0' ++ xs) nothing

length-filled : (f : ℕ) (xs : List ℕ) → length xs ≤ f → length (filled f xs) ≡ f
length-filled f xs le = omega (
  arith,
  length-append (replicate (f - length xs) b'0') xs,
  length-replicate {A = ℕ} (f - length xs) b'0',
)

module _ (b : Buffers) (apart : AreApart b) (m : Mem) (f : ℕ) (xs : List ℕ)
    (short : length xs ≤ 10) where
  -- The digits stand in `tmp_buf`, and are printed from there.
  print_plain :
      (fuel : ℕ) (s : Printing)
      → 12 ≤ fuel
      → IsReady b m f s
      → IsString s.memory b.tmp_buf xs
      → f ≤ length xs
      → Numbered b m f xs s (print_filled fuel b (length xs) s)
  unfolding print_filled
  print_plain fuel s enough ready string le =
      let test : ltb (length xs) f ≡ false = le→ltb (length xs) f le in
      record {
        after = record s { vga = print_str s.vga xs };
        returned = rw (ap (ltb (length xs)) ready.fill ∙ test) (
            print_str_from_lem fuel b.tmp_buf s xs string.holds string.nonzero string.ends
              (omega arith));
        ready = rw test (record {
          agree = ready.agree;
          fill = ready.fill;
          small = ready.small;
          zeros = ready.zeros;
          no_flag = ready.no_flag;
        });
        shown = ap (print_str s.vga) (sym (filled_none f xs le));
        args = refl;
      }

  -- The digits are copied behind the zeros of `int_buf`.
  module _ (s : Printing) (ready : IsReady b m f s) (less : length xs < f) (m' : Mem)
      (string : IsString m' (b.int_buf + (f - length xs)) xs)
      (frame : (a : ℕ)
        → (a < b.int_buf + (f - length xs)) ⊎ (b.int_buf + (f - length xs) + (length xs + 1) ≤ a)
        → m' a ≡ s.memory a) where
    zeros_before : (k : ℕ) → k < f - length xs → m' (b.int_buf + k) ≡ b'0'
    zeros_before k lt = frame (b.int_buf + k) (inl (omega arith)) ∙ elim ready.zeros [
      | inl none_left ↦ absurd (omega (arith, less))
      | inr zeros ↦ zeros k (omega (arith, ready.small))
    ]

    filled-IsString : IsString m' b.int_buf (filled f xs)
    filled-IsString =
        let n = f - length xs in
        let size : length (replicate {A = ℕ} n b'0') ≡ n = length-replicate {A = ℕ} n b'0' in
        let whole : length (filled f xs) ≡ f = length-filled f xs (omega arith) in
        record {
          holds =
              Holds-join m' b.int_buf (replicate n b'0') xs
                (Holds-replicate m' b.int_buf n b'0' zeros_before)
                (subst (λ k. Holds m' (b.int_buf + k) xs) (sym size) string.holds);
          nonzero =
              NonZero-append (replicate n b'0') xs (NonZero-replicate n b'0' (λ e. omega arith))
                string.nonzero;
          ends = ap m' (omega (arith, whole)) ∙ string.ends;
        }

    copied-IsReady :
        IsReady b m 0 (record s { memory = m'; lead_fill = 0; vga = print_str s.vga (filled f xs) })
    copied-IsReady = record {
      agree = λ a out.
          frame a (elim out.from_int [
            | inl behind ↦ inr (omega (arith, ready.small))
            | inr ahead ↦ inl (omega arith)
          ])
          ∙ ready.agree a out;
      fill = refl;
      small = omega arith;
      zeros = inl refl;
      no_flag = ready.no_flag;
    }

  print_copied :
      (fuel : ℕ) (s : Printing)
      → 12 ≤ fuel
      → IsReady b m f s
      → IsString s.memory b.tmp_buf xs
      → length xs < f
      → Numbered b m f xs s (print_filled fuel b (length xs) s)
  unfolding print_filled
  print_copied fuel s enough ready string less =
      let test : ltb (length xs) f ≡ true = lt→ltb (length xs) f less in
      let w =
        strncpy-Wrote fuel s.memory b.int_buf b.tmp_buf (f - length xs) xs string (omega arith)
          (omega (arith, ready.small))
          (elim apart.tmp_int [
            | inl l ↦ inl (omega arith)
            | inr r ↦ inr (omega (arith, ready.small))
          ]) in
      let copied : strncpy fuel s.memory b.int_buf b.tmp_buf (s.lead_fill - length xs)
          ≡ some w.after =
        ap (λ t. strncpy fuel s.memory b.int_buf b.tmp_buf (t - length xs)) ready.fill
        ∙ w.returned in
      let whole = filled-IsString s ready less w.after w.string w.frame in
      let size : length (filled f xs) ≡ f = length-filled f xs (omega arith) in
      record {
        after = record s { memory = w.after; lead_fill = 0; vga = print_str s.vga (filled f xs) };
        returned =
            rw (ap (ltb (length xs)) ready.fill ∙ test, copied)
              (print_str_from_lem fuel b.int_buf (record s { memory = w.after; lead_fill = 0 })
                (filled f xs) whole.holds whole.nonzero whole.ends
                (omega (arith, size, ready.small)));
        ready = rw test (copied-IsReady s ready less w.after w.string w.frame);
        shown = refl;
        args = refl;
      }

  print_filled-Numbered :
      (fuel : ℕ) (s : Printing)
      → 12 ≤ fuel
      → IsReady b m f s
      → IsString s.memory b.tmp_buf xs
      → Numbered b m f xs s (print_filled fuel b (length xs) s)
  print_filled-Numbered fuel s enough ready string = elim (dec_lt (length xs) f) [
    | yes less ↦ print_copied fuel s enough ready string less
    | no le ↦ print_plain fuel s enough ready string (omega (arith, le))
  ]

-- What a letter of a conversion makes of `itoa`.
letter-Result :
    (fuel tmp : ℕ) (m : Mem) (buf ch base n : ℕ)
    → 12 ≤ fuel
    → Apart tmp 32 buf 12
    → IsLetter ch base n
    → Result base n [] m tmp buf (itoa fuel tmp m buf ch n)
letter-Result fuel tmp m buf ch base n enough apart (inl (letter, ten, small)) =
    rw (letter, ten) ((itoa-Result fuel tmp m buf n enough apart (omega arith)).1 small)
letter-Result fuel tmp m buf ch base n enough apart (inr (letter, sixteen, small)) =
    rw (letter, sixteen) ((itoa-Result fuel tmp m buf n enough apart small).0)

module _ (b : Buffers) (apart : AreApart b) (m : Mem) (f base n : ℕ) where
  -- The state behind `itoa` is still ready.
  itoa-IsReady :
      (s : Printing) (r : Option Mem)
      → IsReady b m f s
      → (result : Result base n [] s.memory b.local_buf b.tmp_buf r)
      → IsReady b m f (record s { memory = result.after })
  itoa-IsReady s r ready result =
      let size : length (result.xs ++ []) ≡ length result.xs =
        ap (length {A = ℕ}) (append-nil result.xs) in
      record {
        agree = λ a out.
            result.frame a (elim out.from_local [ inl l ↦ inr l | inr r ↦ inl (omega arith) ])
              (elim out.from_tmp [
                | inl l ↦ inr (omega (arith, size, result.short))
                | inr r ↦ inl (omega arith)
              ])
            ∙ ready.agree a out;
        fill = ready.fill;
        small = ready.small;
        zeros = elim ready.zeros [
          | inl none_left ↦ inl none_left
          | inr zeros ↦ inr (λ k lt.
              result.frame (b.int_buf + k)
                (elim apart.local_int [ inl l ↦ inr (omega arith) | inr r ↦ inl (omega arith) ])
                (elim apart.tmp_int [
                  | inl l ↦ inr (omega (arith, size, result.short))
                  | inr r ↦ inl (omega arith)
                ])
              ∙ zeros k lt)
        ];
        no_flag = ready.no_flag;
      }

  -- A number is printed as its numeral, with zeros up to the width.
  pub print_number-Numbered :
      (fuel ch : ℕ) (s : Printing)
      → 12 ≤ fuel
      → IsLetter ch base n
      → IsReady b m f (clear_fill b s)
      → (xs : List ℕ) × IsNumeral base n xs
        × Numbered b m f xs (clear_fill b s) (print_number fuel b ch n s)
  unfolding print_number
  print_number-Numbered fuel ch s enough letter ready =
      let c = clear_fill b s in
      let room : Apart b.local_buf 32 b.tmp_buf 12 = elim apart.local_tmp [
        | inl l ↦ inl l
        | inr r ↦ inr (omega arith)
      ] in
      let result = letter-Result fuel b.local_buf c.memory b.tmp_buf ch base n enough room letter in
      let string : IsString result.after b.tmp_buf result.xs =
        subst (IsString result.after b.tmp_buf) (append-nil result.xs) result.string in
      let counted =
        strlen_lem fuel result.after b.tmp_buf result.xs string (omega (arith, result.short))
          (omega (arith, result.short)) in
      let next = record c { memory = result.after } in
      let done =
        print_filled-Numbered b apart m f result.xs result.short fuel next enough
          (itoa-IsReady c (itoa fuel b.local_buf c.memory b.tmp_buf ch n) ready result) string in
      (
        result.xs,
        result.numeral,
        record {
          after = done.after;
          returned = rw (result.returned, counted) done.returned;
          ready = done.ready;
          shown = done.shown;
          args = done.args;
        },
      )
