-- ===== src/GuiIpc/Events.antt =====
-- The texts of events of kernel/gui/gui_ipc.c.
use operating_system_sctrach.Common.{
  ℕ, zero, suc, ◌+◌, ◌-◌, ◌≤◌, ◌<◌, ◌^◌, ◌≡◌, refl, ap, ◌∙◌, List, [], ◌∷◌, ◌++◌, append_assoc,
  length, length-append, ◌==◌, ltb, if◌then◌else◌, arith, Bool, true, not, ◌&&◌, some, codes,
}
use Prim.Native.String.{String}
use operating_system_sctrach.Common.Memory.{write, write_self}
use operating_system_sctrach.Common.Ring.{span, span-append, span-write}
use operating_system_sctrach.Common.Decimal.{
  decimal, length-decimal, AreDigits, decimal-AreDigits, read_decimal, read_decimal-decimal,
}
use operating_system_sctrach.GuiIpc.{
  Ipc, IpcMessage, Buffer, put, put_text, append_int, u32toa, quote, colon, comma, mouse_text,
  open_text, str_field, int_field, filled, close_text, ring_push, send_mouse_event,
}
use operating_system_sctrach.GuiIpc.Text.{
  IsText, written, written-put, written-put_text, Appends, Appends-trans, put-Appends,
  append_str-text, str_text, int_text,
}

digits-IsText : (cs : List ℕ) → AreDigits cs → IsText cs
digits-IsText [] h = tt
digits-IsText (c ∷ cs) h = ((λ z. ground (arith, h.0, z)), digits-IsText cs h.1)

u32toa-IsText : (v : ℕ) → IsText (u32toa v)
unfolding u32toa
u32toa-IsText v = digits-IsText (decimal 10 v) (decimal-AreDigits 10 v)

-- The digits that are printed read back as the number.
u32toa-read_decimal : (v : ℕ) → v < 2 ^ 32 → read_decimal (u32toa v) ≡ some v
unfolding u32toa
u32toa-read_decimal v h = read_decimal-decimal 9 v (omega arith)

-- A field whose key leaves room in the buffer is written as `"key":` and the number's digits.
pub append_int-text :
    (max : ℕ) (key : List ℕ) (val : ℕ) (b : Buffer)
    → IsText key
    → b.off + length key + 15 ≤ max
    → Appends b (append_int max key val b) (int_text key val)
unfolding append_int put u32toa
append_int-text max key val b k h =
    let digits = length-decimal 10 val in
    let b1 = put quote b in
    let b2 = put_text (max - 2) key b1 in
    let b3 = put quote b2 in
    let b4 = put colon b3 in
    let b5 = put_text (max - 1) (u32toa val) b4 in
    let p1 = put-Appends quote b in
    let p2 = written-put_text (max - 2) key b1 k (omega arith) in
    let p3 = put-Appends quote b2 in
    let p4 = put-Appends colon b3 in
    let p5 =
      written-put_text (max - 1) (u32toa val) b4 (u32toa-IsText val)
        (omega (arith, p2.1, digits)) in
    let q4 = Appends-trans b3 b4 b5 (colon ∷ []) (u32toa val) p4 p5 in
    let q3 = Appends-trans b2 b3 b5 (quote ∷ []) (colon ∷ u32toa val) p3 q4 in
    let q2 = Appends-trans b1 b2 b5 key (quote ∷ colon ∷ u32toa val) p2 q3 in
    Appends-trans b b1 b5 (quote ∷ []) (key ++ (quote ∷ colon ∷ u32toa val)) p1 q2

-- A comma and a field with a number.
abbrev pub comma_int : String → ℕ → List ℕ
comma_int key v = (comma ∷ []) ++ int_text (codes key) v

length-int_text : (key : List ℕ) (v : ℕ) → length (int_text key v) ≤ length key + 14
unfolding u32toa
length-int_text key v =
    let a = length-append key (quote ∷ colon ∷ u32toa v) in
    let b = length-decimal 10 v in omega (arith, a, b)

-- What was built so far, and a bound on its length.
abbrev Built : Buffer → Buffer → List ℕ → ℕ → Type 0
Built b0 b xs n = Appends b0 b xs × (b.off ≤ n)

int_field-Built :
    (b0 b : Buffer) (xs : List ℕ) (key : String) (v n : ℕ)
    → Built b0 b xs n
    → IsText (codes key)
    → n + length (codes key) + 16 ≤ 512
    → Built b0 (int_field key v (put comma b)) (xs ++ comma_int key v) (n + length (codes key) + 15)
int_field-Built b0 b xs key v n h k room =
    let p = put-Appends comma b in
    let q = append_int-text 512 (codes key) v (put comma b) k (omega (arith, p.1, h.1)) in
    let r =
      Appends-trans b (put comma b) (int_field key v (put comma b)) (comma ∷ [])
        (int_text (codes key) v) p q in
    (
      Appends-trans b0 b (int_field key v (put comma b)) xs (comma_int key v) h.0 r,
      omega (arith, p.1, q.1, h.1, length-int_text (codes key) v),
    )

is_text : List ℕ → Bool
is_text [] = true
is_text (c ∷ cs) = not (c == 0) && is_text cs

is_text-IsText : (cs : List ℕ) → is_text cs ≡ true → IsText cs
unfolding is_text
is_text-IsText [] e = tt
is_text-IsText (c ∷ cs) e = ((λ z. ground arith), is_text-IsText cs (ground arith))

-- What the fields of a mouse event are written as.
abbrev mouse_fields : ℕ → ℕ → ℕ → ℕ → ℕ → List ℕ
mouse_fields x y left right middle =
    (123 ∷ [])
    ++ str_text (codes "type") (codes "mouse")
    ++ comma_int "x" x
    ++ comma_int "y" y
    ++ comma_int "l" left
    ++ comma_int "r" right
    ++ comma_int "m" middle

-- All fields of a mouse event are written, whatever was in the array before.
mouse_text-written :
    (buf : ℕ → ℕ) (x y left right middle : ℕ)
    → let b = mouse_text buf x y left right middle in
      (written b ≡ mouse_fields x y left right middle) × (b.off ≤ 95)
unfolding mouse_text is_text span
mouse_text-written buf x y left right middle =
    let b0 : Buffer = record { bytes = buf; off = 0 } in
    let p0 = put-Appends 123 b0 in
    let p1 =
      append_str-text 512 (codes "type") (codes "mouse") (open_text buf)
        (is_text-IsText (codes "type") refl) (is_text-IsText (codes "mouse") refl)
        (omega (arith, p0.1)) in
    let b1 = str_field "type" (codes "mouse") (open_text buf) in
    let b2 = int_field "x" x (put comma b1) in
    let b3 = int_field "y" y (put comma b2) in
    let b4 = int_field "l" left (put comma b3) in
    let b5 = int_field "r" right (put comma b4) in
    let t1 = (123 ∷ []) ++ str_text (codes "type") (codes "mouse") in
    let t2 = t1 ++ comma_int "x" x in
    let t3 = t2 ++ comma_int "y" y in
    let t4 = t3 ++ comma_int "l" left in
    let t5 = t4 ++ comma_int "r" right in
    let g1 : Built b0 b1 t1 15 = (
      Appends-trans b0 (open_text buf) b1 (123 ∷ []) (str_text (codes "type") (codes "mouse")) p0
          p1,
      omega (arith, p0.1, p1.1),
    ) in
    let g2 = int_field-Built b0 b1 t1 "x" x 15 g1 (is_text-IsText (codes "x") refl) (omega arith) in
    let g3 = int_field-Built b0 b2 t2 "y" y 31 g2 (is_text-IsText (codes "y") refl) (omega arith) in
    let g4 =
      int_field-Built b0 b3 t3 "l" left 47 g3 (is_text-IsText (codes "l") refl) (omega arith) in
    let g5 =
      int_field-Built b0 b4 t4 "r" right 63 g4 (is_text-IsText (codes "r") refl) (omega arith) in
    let g6 =
      int_field-Built b0 b5 t5 "m" middle 79 g5 (is_text-IsText (codes "m") refl) (omega arith) in
    (g6.0.0, g6.1)

span-same : (m m' : ℕ → ℕ) (i k : ℕ) → ((j : ℕ) → j < i + k → m j ≡ m' j) → span m i k ≡ span m' i k
unfolding span
span-same m m' i zero h = refl
span-same m m' i (suc k) h =
    rw (h i (omega arith), span-same m m' (i + 1) k (λ j l. h j (omega arith))) refl

-- A text that fits is queued whole, with the end of the line and the terminator behind it.
filled-line :
    (old : IpcMessage) (json : ℕ → ℕ) (len : ℕ)
    → len < 510
    → let slot = filled old json len in
      (slot.len ≡ len + 1)
      × (span slot.msg 0 (len + 1) ≡ span json 0 len ++ (10 ∷ []))
      × (slot.msg (len + 1) ≡ 0)
filled-line old json len h =
    let whole : ltb len 510 ≡ true = ground arith in
    let held : ℕ → ℕ = λ i. if ltb i len then json i else old.msg i in
    let next : len + 1 ≡ suc len = omega arith in
    let start : 0 + len ≡ len = omega arith in
    let same : span held 0 len ≡ span json 0 len = span-same held json 0 len (λ j l.
      let below : ltb j len ≡ true = ground arith in
      ap (λ b. if b then json j else old.msg j) below) in
    rw whole (
      refl,
      span-write (write held len 10) (len + 1) 0 0 (len + 1) (omega arith)
          ∙ (ap (span (write held len 10) 0) next
              ∙ (span-append (write held len 10) 0 len
                  ∙ (ap (λ xs. xs ++ (write held len 10 (0 + len) ∷ []))
                        (span-write held len 10 0 len (omega arith) ∙ same)
                      ∙ ap (λ c. span json 0 len ++ (c ∷ []))
                          (ap (write held len 10) start ∙ write_self held len 10)))),
      write_self (write held len 10) (len + 1) 0,
    )

-- The line that a slot of the ring holds once a text was closed and pushed.
close_text-line :
    (s : Ipc) (b : Buffer)
    → b.off ≤ 500
    → let slot = (close_text s b).ring s.ring_tail in
      (span slot.msg 0 slot.len ≡ written b ++ (125 ∷ 10 ∷ [])) × (slot.msg slot.len ≡ 0)
unfolding close_text ring_push put
close_text-line s b h =
    let b' = put 125 b in
    let json = write b'.bytes b'.off 0 in
    let old = s.ring s.ring_tail in
    let line = filled-line old json b'.off (omega arith) in
    let text : span json 0 b'.off ≡ written b ++ (125 ∷ []) =
      span-write b'.bytes b'.off 0 0 b'.off (omega arith) ∙ written-put 125 b in
    rw (write_self s.ring s.ring_tail (filled old json b'.off)) (
      ap (span (filled old json b'.off).msg 0) line.0
          ∙ (line.1
              ∙ (ap (λ xs. xs ++ (10 ∷ [])) text ∙ append_assoc (written b) (125 ∷ []) (10 ∷ []))),
      ap (filled old json b'.off).msg line.0 ∙ line.2,
    )

-- The line of a mouse event, from the texts of its five numbers.
abbrev pub mouse_line : List ℕ → List ℕ → List ℕ → List ℕ → List ℕ → List ℕ
mouse_line x y left right middle =
    codes "{\"type\":\"mouse\",\"x\":"
    ++ (x
        ++ (codes ",\"y\":"
            ++ (y
                ++ (codes ",\"l\":"
                    ++ (left
                        ++ (codes ",\"r\":"
                            ++ (right ++ (codes ",\"m\":" ++ (middle ++ codes "}\n")))))))))

-- A text that reads in decimal as the number.
abbrev pub Digits : ℕ → Type 0
Digits v = (ds : List ℕ) × (read_decimal ds ≡ some v)

fields-line :
    (x y left right middle : ℕ)
    → mouse_fields x y left right middle ++ (125 ∷ 10 ∷ [])
      ≡ mouse_line (u32toa x) (u32toa y) (u32toa left) (u32toa right) (u32toa middle)
fields-line x y left right middle = simp append_assoc

-- A mouse event of five 32-bit numbers puts one whole line into the slot at the tail of the ring, whatever
-- was in the array before: the text `{"type":"mouse","x":X,"y":Y,"l":L,"r":R,"m":M}` and the end of the
-- line, where each of X to M is a text of decimal digits that reads back as its number. The line has the
-- slot's length and is terminated.
pub send_mouse_event-line :
    (buf : ℕ → ℕ) (s : Ipc) (x y left right middle : ℕ)
    → x < 2 ^ 32
    → y < 2 ^ 32
    → left < 2 ^ 32
    → right < 2 ^ 32
    → middle < 2 ^ 32
    → let slot = (send_mouse_event buf s x y left right middle).ring s.ring_tail in
      (dx : Digits x) × (dy : Digits y) × (dl : Digits left) × (dr : Digits right) × (dm : Digits
        middle)
      × (span slot.msg 0 slot.len ≡ mouse_line dx.0 dy.0 dl.0 dr.0 dm.0)
      × (slot.msg slot.len ≡ 0)
unfolding send_mouse_event
send_mouse_event-line buf s x y left right middle hx hy hl hr hm =
    let b = mouse_text buf x y left right middle in
    let text = mouse_text-written buf x y left right middle in
    let line = close_text-line s b (omega (arith, text.1)) in
    (
      (u32toa x, u32toa-read_decimal x hx),
      (u32toa y, u32toa-read_decimal y hy),
      (u32toa left, u32toa-read_decimal left hl),
      (u32toa right, u32toa-read_decimal right hr),
      (u32toa middle, u32toa-read_decimal middle hm),
      line.0 ∙ (ap (λ xs. xs ++ (125 ∷ 10 ∷ [])) text.0 ∙ fields-line x y left right middle),
      line.1,
    )
