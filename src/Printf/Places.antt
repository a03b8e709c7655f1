-- ===== src/Printf/Places.antt =====
-- utilities.c: each piece of a format in its place, before the rest of the format.
use rtbench.Common.{
  ℕ, suc, ◌+◌, ◌%◌, ◌≤◌, ◌<◌, ◌≡◌, ◌≢◌, length, refl, sym, ap, ◌∙◌, subst, arith, List, [], ◌∷◌,
  ◌++◌, true, Option, some,
}
use rtbench.Memory.{Mem}
use rtbench.Text.Digits.{IsNumeral}
use rtbench.Video.{Vga, vga_putchar, print_str}
use rtbench.Printf.{
  Buffers, Printing, putchar, clear_fill, pick_next_char, print_format, conversion,
}
use rtbench.Printf.Pieces.{
  Piece, number, AreApart, IsLetter, IsWidth, filled, in_force, left_over, Prints, prints_plain,
  prints_number, prints_character, prints_string,
}
use rtbench.Printf.Numbers.{print_number-Numbered, print_str_from_lem}
use rtbench.Printf.Ready.{
  AgreeOutside, IsReady, clear_fill-IsReady, moved, memory_at, memory_here, agree-IsString,
  clear_fill_keeps, clear_fill_none,
}
use rtbench.Printf.Steps.{
  va_arg-cons, conversion_letter, conversion_width, conversion_character, conversion_text,
  pick_number, pick_fill, pick_character, pick_text, format_plain, format_conversion,
}
use rtbench.Printf.Pieces.{plain, character, string, Outside}
use rtbench.Text.Strings.{IsString}

-- What printing makes of the pieces.
pub record Printed (b : Buffers) (m : Mem) (f : ℕ) (ps : List Piece) (s : Printing)
    (r : Option Printing) : Type 0 where
  pub shown_text : List ℕ
  pub prints : Prints f ps shown_text
  pub after : Printing
  pub returned : r ≡ some after
  pub shown : after.vga ≡ print_str s.vga shown_text
  pub agree : AgreeOutside b m after.memory

pub print_str-append :
    (vga : Vga) (xs ys : List ℕ) → print_str vga (xs ++ ys) ≡ print_str (print_str vga xs) ys
unfolding print_str
print_str-append vga [] ys = refl
print_str-append vga (x ∷ xs) ys = print_str-append (vga_putchar vga x) xs ys

pub print_str-none : (vga : Vga) → vga ≡ print_str vga []
unfolding print_str
print_str-none vga = refl

print_str-one : (vga : Vga) (c : ℕ) → vga_putchar vga c ≡ print_str vga (c ∷ [])
unfolding print_str
print_str-one vga c = refl

-- One piece with the text `xs` before others.
extend :
    {b : Buffers} {m : Mem} {f f' : ℕ} {ps ps' : List Piece} {s t : Printing}
    {r r' : Option Printing} (xs : List ℕ)
    → ((u : List ℕ) → Prints f' ps u → Prints f ps' (xs ++ u))
    → t.vga ≡ print_str s.vga xs
    → r ≡ r'
    → Printed b m f' ps t r'
    → Printed b m f ps' s r
extend {s = s} xs prints shown same rest = record {
  shown_text = xs ++ rest.shown_text;
  prints = prints rest.shown_text rest.prints;
  after = rest.after;
  returned = same ∙ rest.returned;
  shown =
      rest.shown
      ∙ ap (λ v. print_str v rest.shown_text) shown
      ∙ sym (print_str-append s.vga xs rest.shown_text);
  agree = rest.agree;
}

width_small : (w : ℕ) → IsWidth w → w ≤ 8
width_small w h = ground arith

width_in_force : (f w : ℕ) → IsWidth w → in_force f w ≡ w
width_in_force f w h = ground arith

module _ (b : Buffers) (m : Mem) where
  -- A conversion of a number with the width `f` in force, at `q`.
  record Picked (f base n q : ℕ) (rest : List ℕ) (s : Printing) (r : Option (Printing × ℕ))
      : Type 0 where
    digits : List ℕ
    numeral : IsNumeral base n digits
    after : Printing
    picked : r ≡ some (after, q + 1)
    ready : IsReady b m (left_over f digits) after
    shown : after.vga ≡ print_str s.vga (filled f digits)
    args : after.args ≡ rest

  pick_number-Picked :
      (apart : AreApart b) (fuel f base n q : ℕ) (rest : List ℕ) (s : Printing)
      → 12 ≤ fuel
      → IsLetter (s.memory q) base n
      → s.args ≡ n ∷ rest
      → IsReady b m f (clear_fill b (record s { args = rest }))
      → Picked f base n q rest s (pick_next_char (suc fuel) b q s)
  pick_number-Picked apart fuel f base n q rest s enough letter args ready =
      let s1 = record s { args = rest } in
      let (xs, numeral, printed) =
        print_number-Numbered b apart m f base n fuel (s.memory q) s1 enough letter ready in
      let (vga, args1) = clear_fill_keeps b m s1 in
      record {
        digits = xs;
        numeral = numeral;
        after = printed.after;
        picked =
            pick_number fuel b q n rest s printed.after
              (conversion_letter (s.memory q) base n letter) (va_arg-cons s n rest args)
              printed.returned;
        ready = printed.ready;
        shown = printed.shown ∙ ap (λ v. print_str v (filled f xs)) vga;
        args = printed.args ∙ args1;
      }

  -- The pieces behind a conversion of a number.
  behind_number :
      {f f' base n w q : ℕ} {rest : List ℕ} {ps : List Piece} (fuel : ℕ) (p : ℕ) (s : Printing)
      → s.memory p ≡ b'%'
      → in_force f w ≡ f'
      → (picked : Picked f' base n q rest s (pick_next_char fuel b (p + 1) s))
      → Printed b m
          (left_over f' picked.digits)
          ps
          picked.after
          (print_format fuel b (q + 1) picked.after)
      → Printed b m f (number base w n ∷ ps) s (print_format (suc fuel) b p s)
  behind_number {f} {f'} {base} {n} {w} {q} {rest} {ps} fuel p s percent force picked behind =
      extend (filled f' picked.digits)
        (λ u prints.
          subst (λ t. Prints f (number base w n ∷ ps) (filled t picked.digits ++ u)) force
            (prints_number picked.numeral
              (subst (λ t. Prints (left_over t picked.digits) ps u) (sym force) prints)))
        picked.shown (format_conversion fuel b p (q + 1) s picked.after percent picked.picked)
        behind

  -- What is left to show: printing from the place `q` on, with the width `f` left.
  abbrev pub Continues : ℕ → ℕ → ℕ → List ℕ → List Piece → Type 0
  Continues fuel q f rest ps =
      (t : Printing)
      → IsReady b m f t
      → t.args ≡ rest
      → Printed b m f ps t (print_format fuel b q t)

  pub plain_piece :
      {p f : ℕ} {args : List ℕ} {ps : List Piece} (fuel : ℕ) (s : Printing)
      → Outside b p 1
      → m p ≢ 0
      → m p ≢ b'%'
      → IsReady b m f s
      → s.args ≡ args
      → Continues fuel (p + 1) f args ps
      → Printed b m f (plain (m p) ∷ ps) s (print_format (suc fuel) b p s)
  plain_piece {p} fuel s out nz np ready e continues =
      let here = memory_here b m s p 1 ready (omega arith) out in
      extend (m p ∷ []) (λ u prints. prints_plain prints)
        (ap (vga_putchar s.vga) here ∙ print_str-one s.vga (m p))
        (format_plain fuel b p s (λ z. nz (sym here ∙ z)) (λ z. np (sym here ∙ z)))
        (continues (putchar (s.memory p) s)
          (moved b m s (vga_putchar s.vga (s.memory p)) s.args s.str ready) e)

  pub number_piece :
      {p f base n : ℕ} {rest : List ℕ} {ps : List Piece} (fuel : ℕ) (s : Printing)
      → AreApart b
      → Outside b p 2
      → m p ≡ b'%'
      → IsLetter (m (p + 1)) base n
      → IsReady b m f s
      → s.args ≡ n ∷ rest
      → 12 ≤ fuel
      → ((f' : ℕ) → Continues (suc fuel) (p + 2) f' rest ps)
      → Printed b m f (number base 0 n ∷ ps) s (print_format (suc (suc fuel)) b p s)
  number_piece {p} {f} {base} {n} {rest} {ps} fuel s apart out percent letter ready e enough
        continues =
      let here = memory_here b m s p 2 ready (omega arith) out in
      let next = memory_at b m s p 2 1 ready (omega arith) out in
      let s1 = record s { args = rest } in
      let still : IsReady b m f s1 = moved b m s s.vga rest s.str ready in
      let cleared = subst (IsReady b m f) (sym (clear_fill_none b m s1 ready.no_flag)) still in
      let picked =
        pick_number-Picked apart fuel f base n (p + 1) rest s enough
          (subst (λ c. IsLetter c base n) (sym next) letter) e cleared in
      behind_number (suc fuel) p s (here ∙ percent) refl picked (
        subst
          (λ q.
            Printed b m (left_over f picked.digits) ps picked.after
              (print_format (suc fuel) b q picked.after))
          {x = p + 2} (omega arith)
          (continues (left_over f picked.digits) picked.after picked.ready picked.args))

  -- A width before a number.
  filled_number :
      (p : ℕ) {w base n : ℕ} {rest : List ℕ} (fuel : ℕ) (s : Printing)
      → s.memory (p + 1) ≡ b'0' + w
      → IsWidth w
      → Picked w base n
          (p + 1 + 1)
          rest
          (record s { lead_zero = true; lead_fill = w })
          (pick_next_char (suc fuel) b (p + 1 + 1) (record s { lead_zero = true; lead_fill = w }))
      → Picked w base n (p + 1 + 1) rest s (pick_next_char (suc (suc fuel)) b (p + 1) s)
  filled_number p {w} fuel s digit width picked = record {
    digits = picked.digits;
    numeral = picked.numeral;
    after = picked.after;
    picked =
        pick_fill (suc fuel) b (p + 1) w s (ap conversion digit ∙ conversion_width w width)
        ∙ picked.picked;
    ready = picked.ready;
    shown = picked.shown;
    args = picked.args;
  }

  pub filled_piece :
      {p f w base n : ℕ} {rest : List ℕ} {ps : List Piece} (fuel : ℕ) (s : Printing)
      → AreApart b
      → Outside b p 3
      → m p ≡ b'%'
      → IsWidth w
      → m (p + 1) ≡ b'0' + w
      → IsLetter (m (p + 2)) base n
      → IsReady b m f s
      → s.args ≡ n ∷ rest
      → 12 ≤ fuel
      → ((f' : ℕ) → Continues (suc (suc fuel)) (p + 3) f' rest ps)
      → Printed b m f (number base w n ∷ ps) s (print_format (suc (suc (suc fuel))) b p s)
  filled_piece {p} {f} {w} {base} {n} {rest} {ps} fuel s apart out percent width digit letter ready
        e enough continues =
      let here = memory_here b m s p 3 ready (omega arith) out in
      let flagged = memory_at b m s p 3 1 ready (omega arith) out in
      let third : s.memory (p + 1 + 1) ≡ m (p + 2) =
        ap s.memory (omega arith) ∙ memory_at b m s p 3 2 ready (omega arith) out in
      let s2 = record s { lead_zero = true; lead_fill = w } in
      let cleared : IsReady b m w (clear_fill b (record s2 { args = rest })) =
        clear_fill-IsReady b m w (record s2 { args = rest })
          (record { agree = ready.agree; fill = refl; small = width_small w width; flag = refl }) in
      let picked : Picked w base n (p + 1 + 1) rest s2
          (pick_next_char (suc fuel) b (p + 1 + 1) s2) =
        pick_number-Picked apart fuel w base n (p + 1 + 1) rest s2 enough
          (subst (λ c. IsLetter c base n) (sym third) letter) e cleared in
      let by_fill = filled_number p fuel s (flagged ∙ digit) width picked in
      behind_number (suc (suc fuel)) p s (here ∙ percent) (width_in_force f w width) by_fill (
        subst
          (λ q.
            Printed b m (left_over w by_fill.digits) ps by_fill.after
              (print_format (suc (suc fuel)) b q by_fill.after))
          {x = p + 3} (omega arith)
          (continues (left_over w by_fill.digits) by_fill.after by_fill.ready by_fill.args))

  pub character_piece :
      {p f n : ℕ} {rest : List ℕ} {ps : List Piece} (fuel : ℕ) (s : Printing)
      → Outside b p 2
      → m p ≡ b'%'
      → m (p + 1) ≡ b'c'
      → IsReady b m f s
      → s.args ≡ n ∷ rest
      → Continues (suc fuel) (p + 2) f rest ps
      → Printed b m f (character (n % 256) ∷ ps) s (print_format (suc (suc fuel)) b p s)
  character_piece {p} {f} {n} {rest} {ps} fuel s out percent letter ready e continues =
      let here = memory_here b m s p 2 ready (omega arith) out in
      let next = memory_at b m s p 2 1 ready (omega arith) out in
      let picked =
        pick_character fuel b (p + 1) n rest s
          (conversion_character (s.memory (p + 1)) (next ∙ letter)) (va_arg-cons s n rest e) in
      let t = putchar (n % 256) (record s { args = rest }) in
      extend (n % 256 ∷ []) (λ u prints. prints_character prints) (print_str-one s.vga (n % 256))
        (format_conversion (suc fuel) b p (p + 1 + 1) s t (here ∙ percent) picked)
        (subst (λ q. Printed b m f ps t (print_format (suc fuel) b q t)) {x = p + 2} (omega arith)
          (continues t (moved b m s (vga_putchar s.vga (n % 256)) rest s.str ready) refl))

  pub string_piece :
      {p f a : ℕ} {xs rest : List ℕ} {ps : List Piece} (fuel : ℕ) (s : Printing)
      → Outside b p 2
      → m p ≡ b'%'
      → m (p + 1) ≡ b's'
      → Outside b a (length xs + 1)
      → IsString m a xs
      → IsReady b m f s
      → s.args ≡ a ∷ rest
      → length xs < fuel
      → Continues (suc fuel) (p + 2) f rest ps
      → Printed b m f (string xs ∷ ps) s (print_format (suc (suc fuel)) b p s)
  string_piece {p} {f} {a} {xs} {rest} {ps} fuel s out percent letter off is_string ready e enough
        continues =
      let here = memory_here b m s p 2 ready (omega arith) out in
      let next = memory_at b m s p 2 1 ready (omega arith) out in
      let s1 = record s { args = rest; str = a } in
      let held = agree-IsString b m s a xs ready off is_string in
      let printed = print_str_from_lem fuel a s1 xs held.holds held.nonzero held.ends enough in
      let t = record s1 { vga = print_str s.vga xs } in
      let picked =
        pick_text fuel b (p + 1) a rest s t (conversion_text (s.memory (p + 1)) (next ∙ letter))
          (va_arg-cons s a rest e) printed in
      extend xs (λ u prints. prints_string prints) refl
        (format_conversion (suc fuel) b p (p + 1 + 1) s t (here ∙ percent) picked)
        (subst (λ q. Printed b m f ps t (print_format (suc fuel) b q t)) {x = p + 2} (omega arith)
          (continues t (moved b m s (print_str s.vga xs) rest a ready) refl))
