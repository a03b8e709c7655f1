-- ===== src/Printf/Calls.antt =====
-- What several calls of `kprintf` print, from the items of their formats.
use mathlib.Core.List.{append_assoc, append-nil}
use rtbench.Common.{
  ℕ, true, ◌+◌, ◌<◌, ◌≡◌, refl, sym, subst, ap, ◌∙◌, some, List, [], ◌∷◌, ◌++◌, length, map,
}
use rtbench.Memory.{Mem}
use rtbench.Text.Strings.{Holds, IsString}
use rtbench.Video.{print_str}
use rtbench.Serial.{sent}
use rtbench.Serial.Format
use rtbench.Printf.{Buffers, Output, Call, kprintf_calls}
use rtbench.Printf.Pieces
use rtbench.Printf.Pieces.{AreApart, Outside}
use rtbench.Printf.Ready.{AgreeOutside, AgreeOutside-IsString}
use rtbench.Printf.Items.{
  Item, format_text, AreItems, are_items, are_items-AreItems, AreItems-NonZero, SentArgs, ShownArgs,
  sent_pieces, shown_pieces, sent_rounds,
}
use rtbench.Printf.Places.{print_str-append}
use rtbench.Printf.Reading.{sent_pieces-HasPieces, shown_pieces-HasPieces}
use rtbench.Printf.Both.{kprintf-Prints}

-- A call with the items of its format.
pub record Line : Type 0 where
  pub format : ℕ
  pub items : List Item
  pub args : List ℕ

abbrev pub call_of : Line → Call
call_of l = record { format = l.format; args = l.args }

-- The format stands in the memory, outside the buffers, and its arguments are there.
pub record IsPrepared (b : Buffers) (fuel : ℕ) (m : Mem) (l : Line) : Type 0 where
  pub string : IsString m l.format (format_text l.items)
  pub outside : Outside b l.format (length (format_text l.items) + 1)
  pub items : AreItems l.items
  pub sent : SentArgs l.items l.args
  pub shown : ShownArgs l.items l.args
  pub enough_sent : sent_rounds l.items + 14 < fuel
  pub enough_shown : length l.items + 14 < fuel

-- A format of these items, outside the buffers.
pub record IsFormat (b : Buffers) (m : Mem) (p : ℕ) (is : List Item) : Type 0 where
  pub holds : Holds m p (format_text is)
  pub ends : m (p + length (format_text is)) ≡ 0
  pub outside : Outside b p (length (format_text is) + 1)

-- A call is prepared when its format is in place and its arguments fit.
pub line-IsPrepared :
    (b : Buffers) (fuel : ℕ) (m : Mem) (p : ℕ) (is : List Item) (args : List ℕ)
    → IsFormat b m p is
    → are_items is ≡ true
    → SentArgs is args
    → ShownArgs is args
    → sent_rounds is + 14 < fuel
    → length is + 14 < fuel
    → IsPrepared b fuel m (record { format = p; items = is; args = args })
line-IsPrepared b fuel m p is args h ok sent shown enough_sent enough_shown =
    let items = are_items-AreItems is ok in
    record {
      string = record { holds = h.holds; nonzero = AreItems-NonZero is items; ends = h.ends };
      outside = h.outside;
      items = items;
      sent = sent;
      shown = shown;
      enough_sent = enough_sent;
      enough_shown = enough_shown;
    }

abbrev pub ArePrepared : Buffers → ℕ → Mem → List Line → Type 0
ArePrepared b fuel m [] = Unit
ArePrepared b fuel m (l ∷ ls) = IsPrepared b fuel m l × ArePrepared b fuel m ls

abbrev pub all_sent : List Line → List Format.Piece
all_sent [] = []
all_sent (l ∷ ls) = sent_pieces l.items l.args ++ all_sent ls

-- The texts on the console, one behind the other; each call begins without a width.
pub data Shows : List Line → List ℕ → Type 0 where
  nothing : Shows [] []
  line :
      {l : Line} {ls : List Line} {u t : List ℕ}
      → Pieces.Prints 0 (shown_pieces l.items l.args) u
      → Shows ls t
      → Shows (l ∷ ls) (u ++ t)

ArePrepared-after :
    (b : Buffers) (fuel : ℕ) (m m' : Mem) (ls : List Line)
    → AgreeOutside b m m'
    → ArePrepared b fuel m ls
    → ArePrepared b fuel m' ls
ArePrepared-after b fuel m m' [] agree h = tt
ArePrepared-after b fuel m m' (l ∷ ls) agree (h, hs) = (
  record {
    string = AgreeOutside-IsString b m m' l.format (format_text l.items) agree h.outside h.string;
    outside = h.outside;
    items = h.items;
    sent = h.sent;
    shown = h.shown;
    enough_sent = h.enough_sent;
    enough_shown = h.enough_shown;
  },
  ArePrepared-after b fuel m m' ls agree hs,
)

Prints-more :
    {ps : List Format.Piece} (xs t u : List ℕ)
    → Format.Prints ps (xs ++ (t ++ u))
    → Format.Prints ps ((xs ++ t) ++ u)
Prints-more {ps} xs t u = subst (Format.Prints ps) (sym (append_assoc xs t u))

Prints-append :
    {ps qs : List Format.Piece} {t u : List ℕ}
    → Format.Prints ps t
    → Format.Prints qs u
    → Format.Prints (ps ++ qs) (t ++ u)
Prints-append Format.nothing q = q
Prints-append {u = u} (Format.prints_plain {c = c} {t = t} p) q =
    Prints-more (sent c) t u (Format.prints_plain (Prints-append p q))
Prints-append {u = u} (Format.prints_decimal {xs = xs} {t = t} n p) q =
    Prints-more xs t u (Format.prints_decimal n (Prints-append p q))
Prints-append {u = u} (Format.prints_hexadecimal {xs = xs} {t = t} n p) q =
    Prints-more xs t u (Format.prints_hexadecimal n (Prints-append p q))
Prints-append {u = u} (Format.prints_character {c = c} {t = t} p) q =
    Prints-more (sent c) t u (Format.prints_character (Prints-append p q))
Prints-append {u = u} (Format.prints_string {s = s} {t = t} p) q =
    Prints-more (Format.sent_all s) t u (Format.prints_string (Prints-append p q))

-- Calls whose formats are prepared send the text of all their formats on the serial line and show those
-- of the console, one behind the other; no memory outside the buffers changes.
pub kprintf_calls-Shows :
    (b : Buffers) (fuel junk : ℕ) (ls : List Line) (o : Output)
    → AreApart b
    → ArePrepared b fuel o.memory ls
    → (t : List ℕ) × Format.Prints (all_sent ls) t
      × (u : List ℕ) × Shows ls u
      × (o' : Output) × (kprintf_calls fuel b junk (map call_of ls) o ≡ some o')
      × (o'.sent ≡ o.sent ++ t)
      × (o'.vga ≡ print_str o.vga u)
      × AgreeOutside b o.memory o'.memory
unfolding kprintf_calls print_str
kprintf_calls-Shows b fuel junk [] o apart prepared =
    ([], Format.nothing, [], nothing, o, refl, sym (append-nil o.sent), refl, λ a out. refl)
kprintf_calls-Shows b fuel junk (l ∷ ls) o apart (h, hs) =
    let (t, sent, u, shown, o', done, line_sent, line_shown, agree) =
      kprintf-Prints b fuel junk l.format o apart
        (sent_pieces-HasPieces o.memory l.format l.items l.args h.string.holds h.string.ends h.items
          h.sent)
        (shown_pieces-HasPieces b o.memory l.format l.items l.args h.outside h.string.holds
          h.string.ends h.items h.shown)
        h.enough_sent h.enough_shown in
    let (ts, sents, us, showns, o'', dones, lines_sent, lines_shown, agrees) =
      kprintf_calls-Shows b fuel junk ls o' apart
        (ArePrepared-after b fuel o.memory o'.memory ls agree hs) in
    (
      t ++ ts,
      Prints-append sent sents,
      u ++ us,
      line shown showns,
      o'',
      rw done dones,
      lines_sent ∙ ap (λ x. x ++ ts) line_sent ∙ append_assoc o.sent t ts,
      lines_shown ∙ ap (λ v. print_str v us) line_shown ∙ sym (print_str-append o.vga u us),
      λ a out. agrees a out ∙ agree a out,
    )
