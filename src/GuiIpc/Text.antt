-- ===== src/GuiIpc/Text.antt =====
-- The text that the field helpers of kernel/gui/gui_ipc.c write.
use operating_system_sctrach.Common.{
  ℕ, suc, ◌+◌, ◌-◌, ◌≤◌, ◌≡◌, ◌≢◌, refl, sym, ap, ◌∙◌, List, [], ◌∷◌, ◌++◌, append_assoc,
  append_nil, All, length, length-append, ltb, ◌==◌, arith, false, true,
}
use operating_system_sctrach.Common.Memory.{write, write_self}
use operating_system_sctrach.Common.Ring.{span, span-append, span-write}
use operating_system_sctrach.GuiIpc.{Buffer, put, put_text, append_str, u32toa, quote, colon}

-- What was written to a buffer so far.
abbrev pub written : Buffer → List ℕ
written b = span b.bytes 0 b.off

-- The bytes of a C string.
abbrev pub IsText : List ℕ → Type 0
IsText = All (λ c. c ≢ 0)

pub written-put : (c : ℕ) (b : Buffer) → written (put c b) ≡ written b ++ (c ∷ [])
unfolding put
written-put c b =
    let next : b.off + 1 ≡ suc b.off = omega arith in
    let start : 0 + b.off ≡ b.off = omega arith in
    rw
      (
        next,
        span-append (write b.bytes b.off c) 0 b.off,
        start,
        write_self b.bytes b.off c,
        span-write b.bytes b.off c 0 b.off (omega arith),
      )
      refl

-- A text that stays below the limit is written whole.
pub written-put_text :
    (limit : ℕ) (cs : List ℕ) (b : Buffer)
    → IsText cs
    → b.off + length cs ≤ limit
    → (written (put_text limit cs b) ≡ written b ++ cs)
      × ((put_text limit cs b).off ≡ b.off + length cs)
unfolding put_text put
written-put_text limit [] b t h = (sym (append_nil (written b)), omega arith)
written-put_text limit (c ∷ cs) b t h =
    let below : ltb b.off limit ≡ true = ground arith in
    let byte : (c == 0) ≡ false = ground (arith, t.0) in
    let rest = written-put_text limit cs (put c b) t.1 (omega arith) in
    rw (put_text, below, byte)
      (
        rest.0 ∙ (ap (λ xs. xs ++ cs) (written-put c b) ∙ append_assoc (written b) (c ∷ []) cs),
        rest.1 ∙ (omega arith),
      )

-- The text of a field with a string, and of one with a number.
abbrev pub str_text : List ℕ → List ℕ → List ℕ
str_text key val = quote ∷ (key ++ (quote ∷ colon ∷ quote ∷ (val ++ (quote ∷ []))))

abbrev pub int_text : List ℕ → ℕ → List ℕ
int_text key val = quote ∷ (key ++ (quote ∷ colon ∷ u32toa val))

-- A step of building a text appends `cs` to what was written.
abbrev pub Appends : Buffer → Buffer → List ℕ → Type 0
Appends b b' cs = (written b' ≡ written b ++ cs) × (b'.off ≡ b.off + length cs)

pub Appends-trans :
    (a b c : Buffer) (xs ys : List ℕ) → Appends a b xs → Appends b c ys → Appends a c (xs ++ ys)
Appends-trans a b c xs ys h k = (
  k.0 ∙ (ap (λ zs. zs ++ ys) h.0 ∙ append_assoc (written a) xs ys),
  omega (arith, h.1, k.1, length-append xs ys),
)

pub put-Appends : (c : ℕ) (b : Buffer) → Appends b (put c b) (c ∷ [])
unfolding put
put-Appends c b = (written-put c b, omega arith)

-- A field whose string and key leave room in the buffer is written as `"key":"value"`.
pub append_str-text :
    (max : ℕ) (key val : List ℕ) (b : Buffer)
    → IsText key
    → IsText val
    → b.off + length key + length val + 6 ≤ max
    → Appends b (append_str max key val b) (str_text key val)
unfolding append_str put
append_str-text max key val b k v h =
    let b1 = put quote b in
    let b2 = put_text (max - 2) key b1 in
    let b3 = put quote b2 in
    let b4 = put colon b3 in
    let b5 = put quote b4 in
    let b6 = put_text (max - 2) val b5 in
    let p1 = put-Appends quote b in
    let p2 = written-put_text (max - 2) key b1 k (omega arith) in
    let p3 = put-Appends quote b2 in
    let p4 = put-Appends colon b3 in
    let p5 = put-Appends quote b4 in
    let p6 = written-put_text (max - 2) val b5 v (omega (arith, p2.1)) in
    let p7 = put-Appends quote b6 in
    let q6 = Appends-trans b5 b6 (put quote b6) val (quote ∷ []) p6 p7 in
    let q5 = Appends-trans b4 b5 (put quote b6) (quote ∷ []) (val ++ (quote ∷ [])) p5 q6 in
    let q4 =
      Appends-trans b3 b4 (put quote b6) (colon ∷ []) (quote ∷ (val ++ (quote ∷ []))) p4 q5 in
    let q3 =
      Appends-trans b2 b3 (put quote b6) (quote ∷ []) (colon ∷ quote ∷ (val ++ (quote ∷ []))) p3
        q4 in
    let q2 =
      Appends-trans b1 b2 (put quote b6) key (quote ∷ colon ∷ quote ∷ (val ++ (quote ∷ []))) p2
        q3 in
    Appends-trans b b1 (put quote b6) (quote ∷ [])
      (key ++ (quote ∷ colon ∷ quote ∷ (val ++ (quote ∷ [])))) p1 q2
