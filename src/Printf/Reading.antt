-- ===== src/Printf/Reading.antt =====
-- What either output of `kprintf` reads in a format of items.
use rtbench.Common.{
  ℕ, suc, ◌+◌, sym, ◌≤◌, ◌≡◌, ◌≢◌, inl, inr, refl, ap, ◌∙◌, subst, arith, List, [], ◌∷◌, length,
}
use rtbench.Memory.{Mem}
use rtbench.Text.Strings.{Holds}
use rtbench.Serial.Format
use rtbench.Printf.{Buffers}
use rtbench.Printf.Pieces
use rtbench.Printf.Pieces.{Outside, IsWidth}
use rtbench.Printf.Items.{
  Item, lit, dec, hex, chr, wide, format_text, AreItems, SentArgs, ShownArgs, sent_pieces,
  shown_pieces, sent_rounds,
}

two_behind : (m : Mem) (p : ℕ) (xs : List ℕ) → Holds m (p + 1 + 1) xs → Holds m (p + 2) xs
two_behind m p xs = subst (λ q. Holds m q xs) (omega arith)

three_behind : (m : Mem) (p : ℕ) (xs : List ℕ) → Holds m (p + 1 + 1 + 1) xs → Holds m (p + 2 + 1) xs
three_behind m p xs = subst (λ q. Holds m q xs) (omega arith)

sent_plain :
    {m : Mem} {p k c : ℕ} {args : List ℕ} {ps : List Format.Piece}
    → m p ≡ c
    → c ≢ 0
    → c ≢ b'%'
    → Format.HasPieces m (p + 1) args k ps
    → Format.HasPieces m p args (suc k) (Format.plain c ∷ ps)
sent_plain {m} {p} {k} {c} {args} {ps} e nz np h =
    subst (λ x. Format.HasPieces m p args (suc k) (Format.plain x ∷ ps)) e
      (Format.plain_at (λ z. nz (sym e ∙ z)) (λ z. np (sym e ∙ z)) h)

IsSkipped-width : (w ch : ℕ) → IsWidth w → ch ≡ b'0' + w → Format.IsSkipped ch
IsSkipped-width w ch width e =
    (λ d. ground arith, λ d. ground arith, λ d. ground arith, λ d. ground arith)

-- What the serial output reads.
pub sent_pieces-HasPieces :
    (m : Mem) (p : ℕ) (is : List Item) (args : List ℕ)
    → Holds m p (format_text is)
    → m (p + length (format_text is)) ≡ 0
    → AreItems is
    → SentArgs is args
    → Format.HasPieces m p args (sent_rounds is) (sent_pieces is args)
sent_pieces-HasPieces m p [] args h e ok a = Format.done (ap m (omega arith) ∙ e)
sent_pieces-HasPieces m p (lit c ∷ is) args h e ok a =
    sent_plain h.0 ok.0 ok.1
      (sent_pieces-HasPieces m (p + 1) is args h.1 (ap m (omega arith) ∙ e) ok.2 a)
sent_pieces-HasPieces m p (wide w ∷ is) args h e ok a =
    Format.skipped_at h.0 (IsSkipped-width w (m (p + 1)) ok.0 h.1.0) (
      sent_plain (ap m (omega arith) ∙ h.1.1.0) (λ z. omega (arith, z)) (λ z. omega (arith, z))
        (sent_pieces-HasPieces m (p + 2 + 1) is args (three_behind m p (format_text is) h.1.1.1)
          (ap m (omega arith) ∙ e) ok.1 a))
sent_pieces-HasPieces m p (dec ∷ is) (n ∷ args) h e ok a = Format.decimal_at h.0 h.1.0 a.0 (
    sent_pieces-HasPieces m (p + 2) is args (two_behind m p (format_text is) h.1.1)
      (ap m (omega arith) ∙ e) ok a.1)
sent_pieces-HasPieces m p (hex ∷ is) (n ∷ args) h e ok a = Format.hexadecimal_at h.0 h.1.0 a.0 (
    sent_pieces-HasPieces m (p + 2) is args (two_behind m p (format_text is) h.1.1)
      (ap m (omega arith) ∙ e) ok a.1)
sent_pieces-HasPieces m p (chr ∷ is) (n ∷ args) h e ok a = Format.character_at h.0 h.1.0 (
    sent_pieces-HasPieces m (p + 2) is args (two_behind m p (format_text is) h.1.1)
      (ap m (omega arith) ∙ e) ok a)
sent_pieces-HasPieces m p (dec ∷ is) [] h e ok a = absurd a
sent_pieces-HasPieces m p (hex ∷ is) [] h e ok a = absurd a
sent_pieces-HasPieces m p (chr ∷ is) [] h e ok a = absurd a

Outside-part :
    {b : Buffers} {p n : ℕ} (q k : ℕ) → p ≤ q → q + k ≤ p + n → Outside b p n → Outside b q k
Outside-part q k le below out = record {
  from_local = elim out.from_local [ inl l ↦ inl (omega arith) | inr r ↦ inr (omega arith) ];
  from_tmp = elim out.from_tmp [ inl l ↦ inl (omega arith) | inr r ↦ inr (omega arith) ];
  from_int = elim out.from_int [ inl l ↦ inl (omega arith) | inr r ↦ inr (omega arith) ];
}

shown_plain :
    {b : Buffers} {m : Mem} {p k c : ℕ} {args : List ℕ} {ps : List Pieces.Piece}
    → Outside b p 1
    → m p ≡ c
    → c ≢ 0
    → c ≢ b'%'
    → Pieces.HasPieces b m (p + 1) args k ps
    → Pieces.HasPieces b m p args (suc k) (Pieces.plain c ∷ ps)
shown_plain {b} {m} {p} {k} {c} {args} {ps} out e nz np h =
    subst (λ x. Pieces.HasPieces b m p args (suc k) (Pieces.plain x ∷ ps)) e
      (Pieces.plain_at out (λ z. nz (sym e ∙ z)) (λ z. np (sym e ∙ z)) h)

-- What the console reads.
pub shown_pieces-HasPieces :
    (b : Buffers) (m : Mem) (p : ℕ) (is : List Item) (args : List ℕ)
    → Outside b p (length (format_text is) + 1)
    → Holds m p (format_text is)
    → m (p + length (format_text is)) ≡ 0
    → AreItems is
    → ShownArgs is args
    → Pieces.HasPieces b m p args (length is) (shown_pieces is args)
shown_pieces-HasPieces b m p [] args out h e ok a = Pieces.done out (ap m (omega arith) ∙ e)
shown_pieces-HasPieces b m p (lit c ∷ is) args out h e ok a =
    shown_plain (Outside-part p 1 (omega arith) (omega arith) out) h.0 ok.0 ok.1 (
      shown_pieces-HasPieces b m (p + 1) is args
        (Outside-part (p + 1) _ (omega arith) (omega arith) out) h.1 (ap m (omega arith) ∙ e) ok.2
        a)
shown_pieces-HasPieces b m p (wide w ∷ is) (n ∷ args) out h e ok a =
    Pieces.filled_at (Outside-part p 3 (omega arith) (omega arith) out) h.0 ok.0 h.1.0
      (inr (ap m (omega arith) ∙ h.1.1.0, refl, a.0))
      (shown_pieces-HasPieces b m (p + 3) is args
        (Outside-part (p + 3) _ (omega arith) (omega arith) out)
        (subst (λ q. Holds m q (format_text is)) (omega arith) h.1.1.1) (ap m (omega arith) ∙ e)
        ok.1 a.1)
shown_pieces-HasPieces b m p (dec ∷ is) (n ∷ args) out h e ok a =
    Pieces.number_at (Outside-part p 2 (omega arith) (omega arith) out) h.0 (inl (h.1.0, refl, a.0))
      (shown_pieces-HasPieces b m (p + 2) is args
        (Outside-part (p + 2) _ (omega arith) (omega arith) out)
        (two_behind m p (format_text is) h.1.1) (ap m (omega arith) ∙ e) ok a.1)
shown_pieces-HasPieces b m p (hex ∷ is) (n ∷ args) out h e ok a =
    Pieces.number_at (Outside-part p 2 (omega arith) (omega arith) out) h.0 (inr (h.1.0, refl, a.0))
      (shown_pieces-HasPieces b m (p + 2) is args
        (Outside-part (p + 2) _ (omega arith) (omega arith) out)
        (two_behind m p (format_text is) h.1.1) (ap m (omega arith) ∙ e) ok a.1)
shown_pieces-HasPieces b m p (chr ∷ is) (n ∷ args) out h e ok a =
    Pieces.character_at (Outside-part p 2 (omega arith) (omega arith) out) h.0 h.1.0 (
      shown_pieces-HasPieces b m (p + 2) is args
        (Outside-part (p + 2) _ (omega arith) (omega arith) out)
        (two_behind m p (format_text is) h.1.1) (ap m (omega arith) ∙ e) ok a)
shown_pieces-HasPieces b m p (dec ∷ is) [] out h e ok a = absurd a
shown_pieces-HasPieces b m p (hex ∷ is) [] out h e ok a = absurd a
shown_pieces-HasPieces b m p (chr ∷ is) [] out h e ok a = absurd a
shown_pieces-HasPieces b m p (wide w ∷ is) [] out h e ok a = absurd a
